-- ===== src/HostFunction/Tests/Attaches.antt =====
-- Runs of src/host_function_receiver.c: attachments that succeed and fail, a call, and an exit.
use robot_ipc.Common.{
  ℕ, ◌+◌, ◌≡◌, ◌≢◌, ◌⊎◌, refl, arith, List, [], ◌∷◌, Option, none, some, ℤ, pos, negsuc,
}
use robot_ipc.Posix.{World}
use robot_ipc.Posix.Balance.{opens, closes, allocs, frees, allocs_at, frees_at}
use robot_ipc.HostFunction.Receiver.{
  Entry, Dispatcher, attach_host_function_ex, attach_host_function,
}
use robot_ipc.HostFunction.Receiver.Attach.{
  attach_ex-fds, attached_fds, attach_ex-returns, attach_ex-appends, attach_ex-restores,
  attach-blocks,
}
use robot_ipc.HostFunction.Receiver.Dispatch.{handle_call}
use robot_ipc.HostFunction.Receiver.Events.{handle_call_lem, sent}
use robot_ipc.Common.{◌==◌, if◌then◌else◌}
use robot_ipc.HostFunction.Receiver.Create.{
  allocate, create_host_function_dispatcher, create-blocks, dispatcher_blocks,
}
use robot_ipc.HostFunction.Receiver.Delete.{delete_host_function_dispatcher, delete-releases}
use robot_ipc.HostFunction.Tests.{
  os, os_refuses, name, entry, dispatcher, world_of, result_of, add_bytes,
}

abbrev foo : List ℕ → ℤ → Option (List ℕ)
foo args user = add_bytes args

-- The second and last entry is attached.
abbrev attached : Dispatcher
attached =
    (result_of (negsuc 9, dispatcher 1)
      (attach_host_function_ex os (dispatcher 1) name foo (pos 0) 2 1 [])).1

abbrev attached_world : World
attached_world = world_of (attach_host_function_ex os (dispatcher 1) name foo (pos 0) 2 1 [])

attached_run :
    attach_host_function_ex os (dispatcher 1) name foo (pos 0) 2 1 []
    ≡ some ((pos 0, attached), attached_world)
unfolding attach_host_function_ex robot_ipc.HostFunction.Receiver.try_to_open_pipe
attached_run = refl

-- No pipe can be made.
abbrev failed : Dispatcher
failed =
    (result_of (negsuc 9, dispatcher 1)
      (attach_host_function_ex os_refuses (dispatcher 1) name foo (pos 0) 2 1 [])).1

abbrev failed_world : World
failed_world = world_of (attach_host_function_ex os_refuses (dispatcher 1) name foo (pos 0) 2 1 [])

failed_run :
    attach_host_function_ex os_refuses (dispatcher 1) name foo (pos 0) 2 1 []
    ≡ some ((negsuc 1, failed), failed_world)
unfolding attach_host_function_ex robot_ipc.HostFunction.Receiver.try_to_open_pipe
failed_run = refl

attach_ex-fds_example :
    opens 5 attached_world + closes 5 []
    ≡ opens 5 [] + closes 5 attached_world + attached_fds 5 (pos 0) (attached.entries 1)
attach_ex-fds_example =
    attach_ex-fds os (dispatcher 1) attached name foo (pos 0) 2 1 5 [] attached_world (pos 0)
      attached_run

attach_ex-returns_at : attach_host_function_ex os (dispatcher 1) name foo (pos 0) 2 1 [] ≢ none
attach_ex-returns_at =
    attach_ex-returns os (dispatcher 1) name foo (pos 0) 2 1 [] (omega arith) (omega arith)

attach_ex-appends_example :
    let e = attached.entries 1 in
    (attached.cnt_func ≡ 2)
    × (e.foo ≡ foo)
    × (e.user_data ≡ pos 0)
    × (e.owns_user_data ≡ 0)
    × (e.sz_arg ≡ 2)
    × (e.sz_ret ≡ 1)
    × (attached.entries 0 ≡ entry)
unfolding attach_host_function_ex robot_ipc.HostFunction.Receiver.try_to_open_pipe
attach_ex-appends_example =
    attach_ex-appends os (dispatcher 1) attached name foo (pos 0) 2 1 0 [] attached_world
      (omega arith) attached_run

attach_ex-restores_example :
    ((negsuc 1 ≡ negsuc 0) ⊎ (negsuc 1 ≡ negsuc 1) ⊎ (negsuc 1 ≡ negsuc 2) ⊎ (negsuc 1 ≡ negsuc 4))
    × (failed.cnt_func ≡ 1)
    × (failed.entries 0 ≡ entry)
unfolding attach_host_function_ex robot_ipc.HostFunction.Receiver.try_to_open_pipe
attach_ex-restores_example =
    attach_ex-restores os_refuses (dispatcher 1) failed name foo (pos 0) 2 1 0 [] failed_world
      (negsuc 1) (λ e. omega arith) (ground arith) failed_run

-- `attach_host_function` keeps the context that it allocates.
abbrev kept : Dispatcher
kept =
    (result_of (negsuc 9, dispatcher 1)
      (attach_host_function os (dispatcher 1) name add_bytes 2 1 [])).1

abbrev kept_world : World
kept_world = world_of (attach_host_function os (dispatcher 1) name add_bytes 2 1 [])

kept_run :
    attach_host_function os (dispatcher 1) name add_bytes 2 1 [] ≡ some ((pos 0, kept), kept_world)
unfolding attach_host_function attach_host_function_ex
    robot_ipc.HostFunction.Receiver.try_to_open_pipe
kept_run = refl

attach-blocks_at : allocs kept_world + frees [] ≡ allocs [] + frees kept_world + 1
attach-blocks_at =
    attach-blocks os (dispatcher 1) kept name add_bytes 2 1 [] kept_world (pos 0) kept_run

handle_call_lem_at :
    (h' : World) × (handle_call os entry [] ≡ some (tt, h'))
    × (sent h' ≡ (pos 6, 7 ∷ []) ∷ [])
    × (frees h' ≡ 1)
handle_call_lem_at = handle_call_lem os entry []

-- Two functions, one of which owns its data.
abbrev owner : Dispatcher
owner = record (dispatcher 2) {
  entries = λ i. if i == 1 then record entry { owns_user_data = 1; user_data = pos 64 } else entry;
}

delete-releases_example :
    (code : ℕ) × (h' : World) × (delete_host_function_dispatcher os owner [] ≡ some (code, h'))
    × (closes 5 h' ≡ 2)
    × (frees_at (pos 64) h' ≡ 2)
delete-releases_example = delete-releases os owner 5 (pos 64) []

abbrev created : Option Dispatcher
created = result_of none (create_host_function_dispatcher os (λ i. entry) 3 [])

abbrev created_world : World
created_world = world_of (create_host_function_dispatcher os (λ i. entry) 3 [])

created_run : create_host_function_dispatcher os (λ i. entry) 3 [] ≡ some (created, created_world)
unfolding create_host_function_dispatcher allocate
created_run = refl

create-blocks_example :
    allocs_at (pos 64) created_world + frees_at (pos 64) []
    ≡ allocs_at (pos 64) [] + frees_at (pos 64) created_world + dispatcher_blocks (pos 64) created
create-blocks_example =
    create-blocks os (λ i. entry) 3 (pos 64) [] created_world created refl created_run
