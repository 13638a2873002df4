-- ===== src/HostFunction/Caller/Link.antt =====
-- `link_host_function` on every branch: what it keeps open and allocated, and what it returns.
use robot_ipc.Common.{
  ℕ, ◌+◌, ◌≡◌, ◌≤◌, refl, arith, true, false, not, ◌&&◌, List, ◌∷◌, ◌++◌, Option, none, some, pos,
  negsuc, is_negative, is_nonzero, length, length-append,
}
use robot_ipc.Posix.{Os, World, calloc, mkdir, mkfifo, open_fifo}
use robot_ipc.Posix.Balance.{is_int, one_if, opens, closes, allocs, frees}
use robot_ipc.HostFunction.Pipe.{codes, pipe_name_prefix, err_pipe_req}
use robot_ipc.HostFunction.Caller.{
  Caller, caller_size, try_to_open_pipe, link_failed, connect_response, connect_request, connect,
  link_host_function,
}

-- The descriptors of a handle.
abbrev pub owned : ℕ → Option Caller → ℕ
owned fd none = 0
owned fd (some p) = one_if (is_int p.req_fd (pos fd)) + one_if (is_int p.res_fd (pos fd))

-- `mkfifo` fails for no other reason than that the pipe is there.
abbrev pub MkfifoWorks : Os → Type 0
MkfifoWorks os =
    (h : World) (path : List ℕ)
    → is_int (os.answer h (mkfifo path)).ret (negsuc 0) && not (os.answer h (mkfifo path)).eexist
      ≡ false

module _ (os : Os) (works : MkfifoWorks os) (name : List ℕ) (fd : ℕ) where
  connect_response_fds :
      (p : Caller) (h h' : World) (o : Option Caller)
      → is_negative p.req_fd ≡ false
      → is_negative p.res_fd ≡ true
      → connect_response os name p h ≡ some (o, h')
      → opens fd h' + closes fd h + one_if (is_int p.req_fd (pos fd))
        ≡ opens fd h + closes fd h' + owned fd o
  unfolding connect_response try_to_open_pipe link_failed
  connect_response_fds p h h' o req res e =
      ground (arith, works h (pipe_name_prefix ++ name ++ codes "_res"))

  connect_request_fds :
      (p : Caller) (h h' : World) (o : Option Caller)
      → is_negative p.req_fd ≡ true
      → is_negative p.res_fd ≡ true
      → connect_request os name p h ≡ some (o, h')
      → opens fd h' + closes fd h ≡ opens fd h + closes fd h' + owned fd o
  unfolding connect_request try_to_open_pipe link_failed
  connect_request_fds p h h' o req res e =
      let path = pipe_name_prefix ++ name ++ codes "_req" in
      let made = os.answer h (mkfifo path) in
      let h₁ = (mkfifo path, made) ∷ h in
      let opened = os.answer h₁ (open_fifo path) in
      let h₂ = (open_fifo path, opened) ∷ h₁ in
      let rest = connect_response_fds (record p { req_fd = opened.ret }) h₂ h' o in
      ground (arith, works h path, rest)

  connect_fds :
      (p : Caller) (h h' : World) (o : Option Caller)
      → is_negative p.req_fd ≡ true
      → is_negative p.res_fd ≡ true
      → connect os name p h ≡ some (o, h')
      → opens fd h' + closes fd h ≡ opens fd h + closes fd h' + owned fd o
  unfolding connect link_failed
  connect_fds p h h' o req res e =
      let made = os.answer h (mkdir pipe_name_prefix) in
      let h₁ = (mkdir pipe_name_prefix, made) ∷ h in ground (arith, connect_request_fds p h₁ h' o)

-- Where `mkfifo` fails for no other reason than that the pipe is there, `link_host_function` leaves
-- open the two descriptors of the handle that it returns, and where it returns NULL none: each
-- descriptor was opened as often as it was closed and is in the handle.
pub link-fds :
    (os : Os)
    → MkfifoWorks os
    → (name : List ℕ) (sz_arg sz_ret fd : ℕ) (h h' : World) (o : Option Caller)
    → link_host_function os name sz_arg sz_ret h ≡ some (o, h')
    → opens fd h' + closes fd h ≡ opens fd h + closes fd h' + owned fd o
unfolding link_host_function
link-fds os works name sz_arg sz_ret fd h h' o e =
    let p = os.answer h (calloc caller_size) in
    let h₁ = (calloc caller_size, p) ∷ h in
    let start : Caller = record {
      address = p.ret;
      req_fd = negsuc 0;
      res_fd = negsuc 0;
      sz_arg = sz_arg;
      sz_ret = sz_ret;
    } in
    ground (arith, connect_fds os works name fd start h₁ h' o)

-- The blocks of a handle: the handle itself.
abbrev pub handles : Option Caller → ℕ
handles none = 0
handles (some p) = 1

connect_response_blocks :
    (os : Os) (name : List ℕ) (p : Caller) (h h' : World) (o : Option Caller)
    → connect_response os name p h ≡ some (o, h')
    → allocs h' + frees h + 1 ≡ allocs h + frees h' + handles o
unfolding connect_response try_to_open_pipe link_failed
connect_response_blocks os name p h h' o e = ground arith

connect_request_blocks :
    (os : Os) (name : List ℕ) (p : Caller) (h h' : World) (o : Option Caller)
    → connect_request os name p h ≡ some (o, h')
    → allocs h' + frees h + 1 ≡ allocs h + frees h' + handles o
unfolding connect_request try_to_open_pipe link_failed
connect_request_blocks os name p h h' o e =
    let path = pipe_name_prefix ++ name ++ codes "_req" in
    let made = os.answer h (mkfifo path) in
    let h₁ = (mkfifo path, made) ∷ h in
    let opened = os.answer h₁ (open_fifo path) in
    let h₂ = (open_fifo path, opened) ∷ h₁ in
    ground (
      arith,
      connect_response_blocks os name (record p { req_fd = opened.ret }) h₂ h' o,
      connect_response_blocks os name (record p { req_fd = pos err_pipe_req }) h₁ h' o,
    )

-- `link_host_function` has allocated one block more than it freed if it returns a handle, and as
-- many if it returns NULL.
pub link-blocks :
    (os : Os) (name : List ℕ) (sz_arg sz_ret : ℕ) (h h' : World) (o : Option Caller)
    → link_host_function os name sz_arg sz_ret h ≡ some (o, h')
    → allocs h' + frees h ≡ allocs h + frees h' + handles o
unfolding link_host_function connect link_failed
link-blocks os name sz_arg sz_ret h h' o e =
    let p = os.answer h (calloc caller_size) in
    let h₁ = (calloc caller_size, p) ∷ h in
    let start : Caller = record {
      address = p.ret;
      req_fd = negsuc 0;
      res_fd = negsuc 0;
      sz_arg = sz_arg;
      sz_ret = sz_ret;
    } in
    let made = os.answer h₁ (mkdir pipe_name_prefix) in
    let h₂ = (mkdir pipe_name_prefix, made) ∷ h₁ in
    ground (arith, connect_request_blocks os name start h₂ h' o)

-- A handle is returned only for sizes that PIPE_BUF allows, and it records them.
pub link-sizes :
    (os : Os) (name : List ℕ) (sz_arg sz_ret : ℕ) (h h' : World) (p : Caller)
    → link_host_function os name sz_arg sz_ret h ≡ some (some p, h')
    → (sz_arg ≤ os.pipe_buf) × (sz_ret ≤ os.pipe_buf) × (p.sz_arg ≡ sz_arg) × (p.sz_ret ≡ sz_ret)
unfolding link_host_function connect connect_request connect_response try_to_open_pipe link_failed
link-sizes os name sz_arg sz_ret h h' p e = ground arith

-- Where every `mkfifo` is refused, and all else succeeds before it, the call returns a handle all
-- the same, with ERR_PIPE_REQ for both descriptors: the constant is not negative.
pub link_refused :
    (os : Os) (name : List ℕ) (sz_arg sz_ret fd : ℕ) (h : World)
    → ((w : World) → is_int (os.answer w (calloc caller_size)).ret (pos 0) ≡ false)
    → ((w : World) → is_nonzero (os.answer w (mkdir pipe_name_prefix)).ret ≡ false)
    → ((w : World) (path : List ℕ)
        → (is_int (os.answer w (mkfifo path)).ret (negsuc 0) ≡ true)
          × ((os.answer w (mkfifo path)).eexist ≡ false))
    → sz_arg ≤ os.pipe_buf
    → sz_ret ≤ os.pipe_buf
    → length name ≤ 236
    → (p : Caller) × (h' : World) × (link_host_function os name sz_arg sz_ret h ≡ some (some p, h'))
      × (p.req_fd ≡ pos err_pipe_req)
      × (p.res_fd ≡ pos err_pipe_req)
      × (opens fd h' ≡ opens fd h)
unfolding link_host_function connect connect_request connect_response try_to_open_pipe
link_refused os name sz_arg sz_ret fd h block dir refused fits_arg fits_ret short =
    let p = os.answer h (calloc caller_size) in
    let h₁ = (calloc caller_size, p) ∷ h in
    let h₂ = (mkdir pipe_name_prefix, os.answer h₁ (mkdir pipe_name_prefix)) ∷ h₁ in
    let req = pipe_name_prefix ++ name ++ codes "_req" in
    let h₃ = (mkfifo req, os.answer h₂ (mkfifo req)) ∷ h₂ in
    let res = pipe_name_prefix ++ name ++ codes "_res" in
    let h₄ = (mkfifo res, os.answer h₃ (mkfifo res)) ∷ h₃ in
    let refused_fd = pos err_pipe_req in
    (
      record {
        address = p.ret;
        req_fd = refused_fd;
        res_fd = refused_fd;
        sz_arg = sz_arg;
        sz_ret = sz_ret;
      },
      h₄,
      ground (
        arith,
        block h,
        dir h₁,
        refused h₂ req,
        refused h₃ res,
        length-append name (codes "_req"),
        length-append name (codes "_res"),
      ),
      refl,
      refl,
      omega arith,
    )
