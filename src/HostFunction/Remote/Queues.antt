-- ===== src/HostFunction/Remote/Queues.antt =====
-- The abstract service: a queue of requests and a queue of responses, each of which holds
-- `capacity` bytes.
use robot_ipc.Common.{
  ℕ, List, [], ◌∷◌, ◌++◌, Option, none, some, ℤ, pos, ◌==◌, ◌&&◌, ◌+◌, leb, if◌then◌else◌, length,
}
use robot_ipc.HostFunction.Receiver.{Entry}
use robot_ipc.HostFunction.Remote.{Op, send, serve, receive}

abbrev pub concat : List (List ℕ) → List ℕ
concat [] = []
concat (x ∷ xs) = x ++ concat xs

pub record Queues : Type 0 where
  pub requests : List (List ℕ)
  pub responses : List (List ℕ)

-- The response that a request leads to; none where the function returns NULL or has no result.
abbrev pub response_to : Entry → Option (List ℕ) → List (List ℕ)
response_to e none = []
response_to e (some ret) = if e.sz_ret == 0 then [] else ret ∷ []

abbrev pub serve_first :
    (capacity : ℕ) → Entry → (requests responses : List (List ℕ)) → Option ((ℤ × List ℕ) × Queues)
serve_first capacity e [] responses = none
serve_first capacity e (arg ∷ requests) responses =
    let later = responses ++ response_to e (e.foo arg e.user_data) in
    if leb (length (concat later)) capacity
    then some ((pos 0, []), record { requests = requests; responses = later })
    else none

abbrev pub receive_first : (requests responses : List (List ℕ)) → Option ((ℤ × List ℕ) × Queues)
receive_first requests [] = none
receive_first requests (ret ∷ responses) =
    some ((pos 0, ret), record { requests = requests; responses = responses })

-- `none` where the operation would wait, for a message or for room, or sends no whole argument.
abbrev pub apply : (capacity : ℕ) → Entry → Op → Queues → Option ((ℤ × List ℕ) × Queues)
apply capacity e (send arg) q =
    if length arg == e.sz_arg && leb (length (concat q.requests) + length arg) capacity
    then some ((pos 0, []), record q { requests = q.requests ++ arg ∷ [] })
    else none
apply capacity e serve q = serve_first capacity e q.requests q.responses
apply capacity e receive q = receive_first q.requests q.responses

unfoldable pub apply_all :
    (capacity : ℕ) → Entry → List Op → Queues → Option (List (ℤ × List ℕ) × Queues)
apply_all capacity e [] q = some ([], q)
apply_all capacity e (op ∷ ops) q = elim (apply capacity e op q) [
  | none ↦ none
  | some (out, q₁) ↦ elim (apply_all capacity e ops q₁) [
    | none ↦ none
    | some (outs, q₂) ↦ some (out ∷ outs, q₂)
  ]
]
