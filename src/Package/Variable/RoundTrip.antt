-- ===== src/Package/Variable/RoundTrip.antt =====
-- An object that is written by the Python package is read.
use robot_ipc.Common.{
  ℕ, ◌≤◌, ◌<◌, ◌≡◌, refl, ◌∙◌, ap, arith, List, ◌++◌, Option, none, some, length, take, drop,
  length-append, take-append, take-length, replicate,
}
use robot_ipc.Bindings.{ok, VariableOps, VariableLaws}
use robot_ipc.Bindings.PyVariable
use robot_ipc.Bindings.PyVariable.{PyHostVariable}
use robot_ipc.Package.{
  decode_with, gives, Objects, Format, DataFormat, absent, structure, something_else,
}
use robot_ipc.Package.Codec.{format_encoded, format_decoded}
use robot_ipc.Package.Variable.{
  HostVariable, new, created, write, read, Travels, linked_size, payload_of,
}

module _ {S : Type 0} (ops : VariableOps S) (v : PyHostVariable) (IsReady : S → Type 0)
    (laws : VariableLaws ops v.size IsReady) where
  -- A payload that the class below writes, and the whole variable that it reads.
  pub core_round_trip :
      (payload : List ℕ) (s : S)
      → IsReady s
      → 0 < length payload
      → length payload ≤ v.size
      → (s' s'' : S) × (v' : PyHostVariable) × (rest : List ℕ) × (PyVariable.write ops v payload
            (length payload)
            s
          ≡ some (ok tt, s'))
        × (PyVariable.read ops v v.size s' ≡ some ((ok (payload ++ rest), v'), s''))
  unfolding PyVariable.write PyVariable.read
  core_round_trip payload s ready some_bytes fits =
      let n = length payload in
      let (s', s'', rest, count, wrote, found, again) =
        laws.write-read_more s payload v.buffer n v.size ready fits (omega arith) (omega arith) in
      let front : take n payload ≡ payload = take-length n payload refl in
      let both = take n payload ++ rest in
      let long : v.size ≡ length both =
        omega (arith, fits, count, length-append (take n payload) rest, ap length front) in
      let cut : take v.size (both ++ drop v.size v.buffer) ≡ payload ++ rest =
        take-append v.size both (drop v.size v.buffer) long
        ∙ ap (λ (xs : List ℕ). xs ++ rest) front in
      (
        s',
        s'',
        record v { buffer = both ++ drop v.size v.buffer },
        rest,
        ground (arith, wrote),
        ground (arith, found, cut),
      )

module _ {S Obj : Type 0} (ops : VariableOps S) (o : Objects Obj) (IsReady : S → Type 0) where
  -- The three calls for one of the two encodings.
  encoded_round_trip :
      (f : Option (Format Obj)) (size : ℕ) (name payload : List ℕ) (x : Obj) (s : S)
      → VariableLaws ops size IsReady
      → payload_of ops o f size x ≡ gives (payload, length payload)
      → ((rest : List ℕ) → decode_with o f (payload ++ rest) ≡ gives x)
      → 0 < length payload
      → length payload ≤ size
      → (s₁ s₂ s₃ : S) × (v v' : HostVariable Obj) × (created ops o f name size
            (PyVariable.new ops name size s)
          ≡ some (gives v, s₁))
        × (write ops o v x none s₁ ≡ some (gives tt, s₂))
        × (read ops o v none s₂ ≡ some ((gives x, v'), s₃))
  unfolding PyVariable.new write read
  encoded_round_trip f size name payload x s laws encodes decodes some_bytes fits =
      let (s₁, linked, ready) = laws.link-ready name s in
      let core : PyHostVariable = record { name = name; size = size; buffer = replicate size 0 } in
      let (s₂, s₃, core', rest, wrote, found) =
        core_round_trip ops core IsReady laws payload s₁ ready some_bytes fits in
      let v : HostVariable Obj = record {
        data_format = f;
        name = name;
        max_size = size;
        core = core;
      } in
      (
        s₁,
        s₂,
        s₃,
        v,
        record v { core = core' },
        ground (arith, linked),
        ground (arith, encodes, wrote),
        ground (arith, found, decodes rest),
      )

  -- With operations that keep the laws, an object that pickle restores from at most `max_size` bytes,
  -- or an instance of the format where one is given, is read back as it was written: neither the
  -- constructor nor `write` nor `read` raises an exception.
  pub package_round_trip :
      (data_format : DataFormat Obj) (name : List ℕ) (max_size : ℕ) (x : Obj) (s : S)
      → VariableLaws ops (linked_size data_format max_size) IsReady
      → Travels o data_format max_size x
      → (s₁ s₂ s₃ : S) × (v v' : HostVariable Obj) × (new ops o name max_size data_format s
          ≡ some (gives v, s₁))
        × (write ops o v x none s₁ ≡ some (gives tt, s₂))
        × (read ops o v none s₂ ≡ some ((gives x, v'), s₃))
  unfolding new
  package_round_trip absent name max_size x s laws (payload, some_bytes, fits, pickled) =
      encoded_round_trip none max_size name payload x s laws (ground (arith, pickled.dumped))
        (λ rest. ground (arith, pickled.loaded rest)) some_bytes fits
  package_round_trip (structure f) name max_size x s laws (some_bytes, i) =
      encoded_round_trip (some f) f.size name (f.string_at x) x s laws
        (ground (arith, format_encoded f x f.size i, i.sized)) (λ rest. format_decoded f x rest i)
        (omega (arith, some_bytes, i.sized)) (omega (arith, i.sized))
  package_round_trip something_else name max_size x s laws impossible = absurd impossible
