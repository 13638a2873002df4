-- ===== src/HostFunction/Tests/Calls.antt =====
-- A run of src/host_function_caller.c: a link, a call and its response, and the end of the link.
use robot_ipc.Common.{
  ℕ, ℤ, if◌then◌else◌, ◌+◌, ◌≡◌, ◌≤◌, ◌⊎◌, ◌↔◌, refl, arith, [], ◌∷◌, some, pos, negsuc,
}
use robot_ipc.Posix.{Os, Call, Reply, World}
use robot_ipc.Posix.Balance.{is_int, opens, closes, allocs, frees, frees_at}
use robot_ipc.HostFunction.Pipe.{robot_ok, err_pipe_req, err_pipe_close}
use robot_ipc.HostFunction.Caller.{
  Caller, link_host_function, unlink_host_function, call_host_function, get_response_host_function,
}
use robot_ipc.HostFunction.Caller.Link.{
  link-fds, link-blocks, link-sizes, link_refused, owned, handles,
}
use robot_ipc.HostFunction.Caller.Message.{unlink_cases, message-codes}
use robot_ipc.HostFunction.Tests.{reply, os, os_refuses, name, world_of}

abbrev handle : Caller
handle = record { address = pos 64; req_fd = pos 5; res_fd = pos 5; sz_arg = 2; sz_ret = 1 }

abbrev linked_world : World
linked_world = world_of (link_host_function os name 2 1 [])

linked : link_host_function os name 2 1 [] ≡ some (some handle, linked_world)
unfolding link_host_function
linked = refl

link-fds_example :
    opens 5 linked_world + closes 5 [] ≡ opens 5 [] + closes 5 linked_world + owned 5 (some handle)
link-fds_example = link-fds os (λ w path. refl) name 2 1 5 [] linked_world (some handle) linked

link-blocks_at :
    allocs linked_world + frees [] ≡ allocs [] + frees linked_world + handles (some handle)
link-blocks_at = link-blocks os name 2 1 [] linked_world (some handle) linked

link-sizes_at : (2 ≤ 4096) × (1 ≤ 4096) × (handle.sz_arg ≡ 2) × (handle.sz_ret ≡ 1)
link-sizes_at = link-sizes os name 2 1 [] linked_world handle linked

link_refused_example :
    (p : Caller) × (h' : World) × (link_host_function os_refuses name 2 1 [] ≡ some (some p, h'))
    × (p.req_fd ≡ pos err_pipe_req)
    × (p.res_fd ≡ pos err_pipe_req)
    × (opens 5 h' ≡ opens 5 [])
link_refused_example =
    link_refused os_refuses name 2 1 5 [] (λ w. refl) (λ w. refl) (λ w path. (refl, refl))
      (omega arith) (omega arith) (omega arith)

-- The second call of `close` fails.
abbrev closing : World → Call → Reply
closing h (Call.close fd) = reply (if is_int fd (pos 6) then negsuc 0 else pos 0)
closing h c = reply (pos 0)

abbrev os_closing : Os
os_closing = record { answer = closing; pipe_buf = 4096 }

abbrev linked_caller : Caller
linked_caller = record { address = pos 64; req_fd = pos 5; res_fd = pos 6; sz_arg = 2; sz_ret = 1 }

abbrev unlinked_world : World
unlinked_world = world_of (unlink_host_function os_closing linked_caller [])

unlinked : unlink_host_function os_closing linked_caller [] ≡ some (err_pipe_close, unlinked_world)
unfolding unlink_host_function
unlinked = refl

unlink_cases_example :
    ((err_pipe_close ≡ robot_ok) ↔ ((◌≡◌ {A = ℤ} (pos 0) (pos 0)) × (negsuc 0 ≡ pos 0)))
    × ((err_pipe_close ≡ robot_ok) ⊎ (◌≡◌ {A = ℕ} err_pipe_close err_pipe_close))
    × (closes 5 unlinked_world ≡ 1)
    × (frees_at (pos 64) unlinked_world ≡ 0)
unlink_cases_example =
    unlink_cases os_closing linked_caller 5 err_pipe_close (pos 64) [] unlinked_world unlinked

abbrev called_world : World
called_world = world_of (call_host_function os handle (7 ∷ 8 ∷ []) linked_world)

called : call_host_function os handle (7 ∷ 8 ∷ []) linked_world ≡ some (pos 0, called_world)
unfolding call_host_function link_host_function
called = refl

abbrev answered_world : World
answered_world = world_of (get_response_host_function os handle called_world)

-- Two bytes are read where one is the whole result.
answered_short :
    get_response_host_function os handle called_world
    ≡ some ((negsuc 0, 3 ∷ 4 ∷ []), answered_world)
unfolding get_response_host_function call_host_function link_host_function
answered_short = refl

message-codes_at :
    ((pos 0 ≡ pos 0) ↔ (pos 2 ≡ pos handle.sz_arg))
    × ((pos 0 ≡ pos 0) ⊎ (pos 0 ≡ negsuc 0))
    × ((negsuc 0 ≡ pos 0) ↔ (pos 2 ≡ pos handle.sz_ret))
    × ((negsuc 0 ≡ pos 0) ⊎ (negsuc 0 ≡ negsuc 0))
message-codes_at =
    message-codes os handle (7 ∷ 8 ∷ []) linked_world (pos 0) called_world (negsuc 0) (3 ∷ 4 ∷ [])
      answered_world called answered_short
