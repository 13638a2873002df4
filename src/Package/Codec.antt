-- ===== src/Package/Codec.antt =====
-- What is encoded is decoded, also where more bytes follow.
use robot_ipc.Common.{
  ℕ, ◌+◌, ◌^◌, ◌≤◌, ◌<◌, ◌≡◌, refl, sym, ◌∙◌, ap, arith, true, List, ◌++◌, [], some, length,
  length-append, take, drop, take-append, drop-append,
}
use mathlib.Core.List.{append_assoc, append-nil}
use robot_ipc.Common.Bytes.{ByteOrder, IsByteOrder}
use robot_ipc.Package.{
  gives, Kwargs, Objects, Format, size_field_bytes, encode_data_format, decode_data_format,
  encode_pickle_call, decode_pickle_call,
}

-- An object that pickle restores from its bytes; it ignores the bytes past them.
pub record Pickles {Obj : Type 0} (o : Objects Obj) (x : Obj) (bytes : List ℕ) : Type 0 where
  pub dumped : o.dumps x ≡ some bytes
  pub loaded : (rest : List ℕ) → o.loads (bytes ++ rest) ≡ some x

-- An instance whose bytes are the object.
pub record IsInstance {Obj : Type 0} (f : Format Obj) (x : Obj) : Type 0 where
  pub instance_of : f.is_instance x ≡ true
  pub sized : length (f.string_at x) ≡ f.size
  pub copied : f.from_buffer_copy (f.string_at x) ≡ x

-- The message of a call.
abbrev pub message : ByteOrder → (args_data kwargs_data : List ℕ) → List ℕ
message order args_data kwargs_data =
    order.to_bytes size_field_bytes (length args_data) ++ (args_data ++ kwargs_data)

module _ {Obj : Type 0} where
  pub format_encoded :
      (f : Format Obj) (x : Obj) (target_size : ℕ)
      → IsInstance f x
      → f.size ≤ target_size
      → encode_data_format x f target_size ≡ gives (f.string_at x)
  unfolding encode_data_format
  format_encoded f x target_size i fits = ground (arith, i.instance_of, i.sized)

  pub format_decoded :
      (f : Format Obj) (x : Obj) (rest : List ℕ)
      → IsInstance f x
      → decode_data_format (f.string_at x ++ rest) f ≡ gives x
  unfolding decode_data_format
  format_decoded f x rest i =
      let front : take f.size (f.string_at x ++ rest) ≡ f.string_at x =
        take-append f.size (f.string_at x) rest (sym i.sized) in
      rw front (ground (arith, i.sized, i.copied))

  module _ (o : Objects Obj) (order : ByteOrder) (lawful : IsByteOrder order) where
    pub pickle_encoded :
        (args : List Obj) (kwargs : Kwargs Obj) (target_size : ℕ) (args_data kwargs_data : List ℕ)
        → Pickles o (o.tuple args) args_data
        → Pickles o (o.dict kwargs) kwargs_data
        → length args_data < 256 ^ size_field_bytes
        → length (message order args_data kwargs_data) ≤ target_size
        → encode_pickle_call o order args kwargs target_size
          ≡ gives (message order args_data kwargs_data)
    unfolding encode_pickle_call
    pickle_encoded args kwargs target_size args_data kwargs_data a k short fits =
        ground (arith, a.dumped, k.dumped)

    pub pickle_decoded :
        (args : List Obj) (kwargs : Kwargs Obj) (args_data kwargs_data rest : List ℕ)
        → Pickles o (o.tuple args) args_data
        → Pickles o (o.dict kwargs) kwargs_data
        → length args_data < 256 ^ size_field_bytes
        → decode_pickle_call o order (message order args_data kwargs_data ++ rest)
          ≡ gives (o.tuple args, o.dict kwargs)
    unfolding decode_pickle_call
    pickle_decoded args kwargs args_data kwargs_data rest a k short =
        let field = order.to_bytes size_field_bytes (length args_data) in
        let eight = sym (lawful.sized size_field_bytes (length args_data)) in
        let tail = args_data ++ (kwargs_data ++ rest) in
        let raw : message order args_data kwargs_data ++ rest ≡ field ++ tail =
          append_assoc field (args_data ++ kwargs_data) rest
          ∙ ap (λ (xs : List ℕ). field ++ xs) (append_assoc args_data kwargs_data rest) in
        let size : order.from_bytes (take size_field_bytes (field ++ tail)) ≡ length args_data =
          ap order.from_bytes (take-append size_field_bytes field tail eight)
          ∙ lawful.read_back size_field_bytes (length args_data) short in
        let behind : drop size_field_bytes (field ++ tail) ≡ tail =
          drop-append size_field_bytes field tail eight in
        let args_slice : take (length args_data) tail ≡ args_data =
          take-append (length args_data) args_data (kwargs_data ++ rest) refl in
        let kwargs_slice : drop (size_field_bytes + length args_data) (field ++ tail)
            ≡ kwargs_data ++ rest =
          ap (drop (size_field_bytes + length args_data))
            (sym (append_assoc field args_data (kwargs_data ++ rest)))
          ∙ drop-append (size_field_bytes + length args_data) (field ++ args_data)
              (kwargs_data ++ rest) (omega (arith, length-append field args_data, eight)) in
        let args_loaded = ap o.loads (sym (append-nil args_data)) ∙ a.loaded [] in
        rw (raw, size, behind, args_slice, kwargs_slice, args_loaded, k.loaded rest) refl
