-- ===== src/Bindings/PyCallback.antt =====
-- `dispatcher_callback` of src/python_bindings.cpp: a Python function as a host function.
use robot_ipc.Common.{
  ℕ, ◌-◌, ◌≤◌, ◌≡◌, List, [], ◌∷◌, ◌++◌, Option, none, some, ℤ, ltb, ◌==◌, if◌then◌else◌, length,
  take, drop, replicate, drop-replicate, sym, ap, ◌∙◌,
}
use mathlib.Core.List.{append-nil}
use robot_ipc.Bindings.{padded}
use robot_ipc.HostFunction.Receiver.{Entry}

-- What is copied over a buffer of zeros.
abbrev pub response : (size : ℕ) → List ℕ → List ℕ
response size payload = payload ++ drop (length payload) (replicate size 0)

-- What the Python function does with the bytes of a request.
pub data Answer : Type 0 where
  is_none raises not_string : Answer
  bytes : (payload : List ℕ) → Answer
  text : (utf8 : List ℕ) → Answer

-- `ret.cast<std::string>()`: the bytes of a `bytes` and of a `str`, as UTF-8, and an exception for
-- anything else.
abbrev pub cast : Answer → Option (List ℕ)
cast (bytes payload) = some payload
cast (text utf8) = some utf8
cast is_none = none
cast raises = none
cast not_string = none

abbrev pub reply_with : (ret_size : ℕ) → Option (List ℕ) → Option (List ℕ)
reply_with ret_size none = none
reply_with ret_size (some payload) =
    if ret_size == 0
    then none
    else if ltb ret_size (length payload)
    then none
    else some (response ret_size payload)

-- The function with its sizes; its response buffer is assigned anew by each call.
pub record CallbackBinding : Type 0 where
  pub callback : List ℕ → Answer
  pub arg_size : ℕ
  pub ret_size : ℕ

-- The answer; every exception, one of `cast` included, is caught and gives NULL.
abbrev pub reply_to : CallbackBinding → Answer → Option (List ℕ)
reply_to b a = reply_with b.ret_size (cast a)

-- `user_data` is the address of the binding, and NULL gives NULL.
unfoldable pub dispatcher_callback : (args : List ℕ) → Option CallbackBinding → Option (List ℕ)
dispatcher_callback args none = none
dispatcher_callback args (some b) = reply_to b (b.callback (take b.arg_size args))

pub response-padded :
    (size : ℕ) (payload : List ℕ)
    → length payload ≤ size
    → response size payload ≡ padded size payload
response-padded size payload fits =
    ap (λ (xs : List ℕ). payload ++ xs)
      (ap (drop (length payload)) (sym (append-nil (replicate size 0)))
        ∙ drop-replicate (length payload) size 0 [] fits
        ∙ append-nil (replicate (size - length payload) 0))

-- The message of a function that returns `payload`, where it fits.
abbrev message_of : Entry → CallbackBinding → (payload : List ℕ) → List (ℤ × List ℕ)
message_of e b payload =
    if b.ret_size == 0
    then []
    else if ltb b.ret_size (length payload)
    then []
    else (e.res_fd, padded b.ret_size payload) ∷ []

-- The messages that a function of Python owes.
abbrev pub messages : Entry → CallbackBinding → Answer → List (ℤ × List ℕ)
messages e b is_none = []
messages e b raises = []
messages e b not_string = []
messages e b (bytes payload) = message_of e b payload
messages e b (text utf8) = message_of e b utf8

-- An entry that runs the function.
pub record RunsCallback (e : Entry) (b : CallbackBinding) : Type 0 where
  pub code : (args : List ℕ) → e.foo args e.user_data ≡ dispatcher_callback args (some b)
  pub arg : e.sz_arg ≡ b.arg_size
  pub ret : e.sz_ret ≡ b.ret_size
