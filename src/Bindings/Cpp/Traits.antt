-- ===== src/Bindings/Cpp/Traits.antt =====
-- The checks of types in include/robot_ipc.hpp. What the compiler says of a type is a parameter.
use robot_ipc.Common.{
  ℕ, ◌≡◌, ◌↔◌, arith, Bool, true, false, not, ◌&&◌, List, [], ◌∷◌, ◌++◌, if◌then◌else◌,
}

-- The traits of <type_traits> at one type, with `sizeof` and `alignof`.
pub record TypeTraits : Type 0 where
  pub is_standard_layout : Bool
  pub is_trivially_copyable : Bool
  pub is_pointer : Bool
  pub is_reference : Bool
  pub is_trivially_destructible : Bool
  pub has_unique_object_representations : Bool
  pub size_of : ℕ
  pub align_of : ℕ

unfoldable pub is_memory_layout_compatible : TypeTraits → Bool
is_memory_layout_compatible t =
    t.is_standard_layout && t.is_trivially_copyable && not t.is_pointer && not t.is_reference

unfoldable pub is_ipc_safe_type : TypeTraits → Bool
unfolding is_memory_layout_compatible
is_ipc_safe_type t = is_memory_layout_compatible t && t.is_trivially_destructible

-- The static assertions of `check_ipc_safety`, by their messages.
pub data Assertion : Type 0 where
  standard_layout trivially_copyable no_pointers trivially_destructible : Assertion

abbrev pub assert : Bool → Assertion → List Assertion
assert holds message = if holds then [] else message ∷ []

-- Those that fail; a program that has one does not compile.
unfoldable pub check_ipc_safety : TypeTraits → List Assertion
check_ipc_safety t =
    assert t.is_standard_layout standard_layout
    ++ (assert t.is_trivially_copyable trivially_copyable
        ++ (assert (not t.is_pointer) no_pointers
            ++ assert t.is_trivially_destructible trivially_destructible))

unfoldable pub validate_memory_layout : TypeTraits → Bool
validate_memory_layout t =
    t.is_standard_layout && t.is_trivially_copyable && t.has_unique_object_representations

-- `MemoryLayoutInfo<T>`.
pub record MemoryLayoutInfo : Type 0 where
  pub is_safe : Bool
  pub size : ℕ
  pub alignment : ℕ
  pub has_unique_repr : Bool

unfoldable pub layout_info : TypeTraits → MemoryLayoutInfo
unfolding is_ipc_safe_type
layout_info t = record {
  is_safe = is_ipc_safe_type t;
  size = t.size_of;
  alignment = t.align_of;
  has_unique_repr = t.has_unique_object_representations;
}

-- For a type whose references have no standard layout, as C++ has it, no static assertion of the
-- classes fails exactly where `MemoryLayoutInfo` says that the type is safe.
pub check-is_ipc_safe_type :
    (t : TypeTraits)
    → (t.is_reference ≡ true → t.is_standard_layout ≡ false)
    → (check_ipc_safety t ≡ []) ↔ ((layout_info t).is_safe ≡ true)
unfolding check_ipc_safety layout_info
check-is_ipc_safe_type t references =
    (λ none_fails. ground (arith, none_fails, references), λ safe. ground (arith, safe, references))
