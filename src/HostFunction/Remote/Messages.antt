-- ===== src/HostFunction/Remote/Messages.antt =====
-- The messages in the pipes, and a read of the first.
use robot_ipc.Common.{
  ℕ, ◌≤◌, ◌≡◌, ◌≢◌, refl, sym, ◌∙◌, ap, ap₂, arith, true, false, List, [], ◌∷◌, ◌++◌, some, ℤ, pos,
  ◌==◌, ==_iff, length, length-append, take, drop, take-append, drop-append,
}
use mathlib.Core.List.{append_assoc}
use robot_ipc.Posix.{Os, World, read}
use robot_ipc.HostFunction.Caller.{Caller, is_short}
use robot_ipc.HostFunction.Receiver.{Entry}
use robot_ipc.HostFunction.Remote.{content, IsFifo, Op, perform}
pub use robot_ipc.HostFunction.Remote.Queues.{concat}
use robot_ipc.HostFunction.Remote.Queues.{Queues}

pub concat-append : (xs ys : List (List ℕ)) → concat (xs ++ ys) ≡ concat xs ++ concat ys
concat-append [] ys = refl
concat-append (x ∷ xs) ys =
    ap (λ (r : List ℕ). x ++ r) (concat-append xs ys) ∙ sym (append_assoc x (concat xs) (concat ys))

abbrev pub Each : (size : ℕ) → List (List ℕ) → Type 0
Each size [] = Unit
Each size (x ∷ xs) = (length x ≡ size) × Each size xs

pub Each-append :
    (size : ℕ) (xs ys : List (List ℕ)) → Each size xs → Each size ys → Each size (xs ++ ys)
Each-append size [] ys h k = k
Each-append size (x ∷ xs) ys h k = (h.0, Each-append size xs ys h.1 k)

-- The pipes hold the queues, each message with the size that its side reads.
pub record Represents (pipe_of : ℤ → ℕ) (e : Entry) (h : World) (q : Queues) : Type 0 where
  pub requests : content pipe_of (pipe_of e.req_fd) h ≡ concat q.requests
  pub responses : content pipe_of (pipe_of e.res_fd) h ≡ concat q.responses
  pub args : Each e.sz_arg q.requests
  pub rets : Each e.sz_ret q.responses

pub ==_refl : (a b : ℕ) → a ≡ b → a == b ≡ true
==_refl a b e = (==_iff a b).1 e

pub ==_ne : (a b : ℕ) → a ≢ b → a == b ≡ false
==_ne a b ne = ground (arith, ne)

pub is_short_whole : (n m : ℕ) → n ≡ m → is_short (pos n) m ≡ false
is_short_whole n m e = ground arith

-- One operation of the two sides, with what the queues say it gives.
abbrev pub Performs :
    (pipe_of : ℤ → ℕ) (os : Os) (p : Caller) (e : Entry)
    → Op
    → Queues
    → World
    → (ℤ × List ℕ)
    → Queues
    → Type 0
Performs pipe_of os p e op q h out q' =
    (h' : World) × (perform os p e op h ≡ some (out, h')) × Represents pipe_of e h' q'

module _ (pipe_of : ℤ → ℕ) (os : Os) (fifo : IsFifo pipe_of os) where
  -- A read of the first message in a pipe.
  pub first_lem :
      (fd : ℤ) (size : ℕ) (x rest : List ℕ) (h : World)
      → content pipe_of (pipe_of fd) h ≡ x ++ rest
      → length x ≡ size
      → let r = os.answer h (read fd size) in
        (is_short r.ret size ≡ false)
        × (r.bytes ≡ x)
        × (drop (length r.bytes) (content pipe_of (pipe_of fd) h) ≡ rest)
  first_lem fd size x rest h holds sized =
      let r = os.answer h (read fd size) in
      let there : size ≤ length (content pipe_of (pipe_of fd) h) =
        rw holds (omega (arith, sized, length-append x rest)) in
      let got = fifo.reads h fd size there in
      let bytes : r.bytes ≡ x =
        got.1 ∙ ap (take size) holds ∙ take-append size x rest (sym sized) in
      (
        ap (λ (v : ℤ). is_short v size) got.0 ∙ is_short_whole size size refl,
        bytes,
        ap₂ (λ (xs ys : List ℕ). drop (length xs) ys) bytes holds
            ∙ drop-append (length x) x rest refl,
      )
