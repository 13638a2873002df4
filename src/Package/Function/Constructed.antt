-- ===== src/Package/Function/Constructed.antt =====
-- What an attachment and a constructor of the Python package have asked the classes below for.
use robot_ipc.Common.{
  ℕ, ◌≡◌, ◌⊎◌, inl, inr, refl, ◌∙◌, ap, subst, arith, List, Option, some, ℤ, Option-cases,
}
use robot_ipc.Common.Bytes.{ByteOrder}
use robot_ipc.Posix.{Os, M, World}
use robot_ipc.Bindings.{ok, raised}
use robot_ipc.Bindings.PyCaller
use robot_ipc.Bindings.PyCaller.{PyHostFunctionCaller, new-sizes}
use robot_ipc.Bindings.PyCallback.{CallbackBinding}
use robot_ipc.Bindings.PyDispatcher
use robot_ipc.Bindings.PyDispatcher.{attached-RunsCallback}
use robot_ipc.Package.{
  PyResult, gives, throws, Kwargs, Objects, Format, DataFormat, validate_data_format,
}
use robot_ipc.Package.Variable.{size_for}
use robot_ipc.Package.Function.{callback}
use robot_ipc.Package.Function.Calls.{
  HostFunctionCaller, HostFunctionDispatcher, validated, new, attach,
}

PyResult-cases :
    {A : Type 0} (r : PyResult A) → ((e : _) × (r ≡ throws e)) ⊎ ((a : A) × (r ≡ gives a))
PyResult-cases (throws e) = inl (e, refl)
PyResult-cases (gives a) = inr (a, refl)

-- Where no format is refused, the rest has run on the two.
validated_lem :
    {Obj A : Type 0} (x y : DataFormat Obj)
    (next : Option (Format Obj) → Option (Format Obj) → M (PyResult A)) (a : A) (h h' : World)
    → validated x y next h ≡ some (gives a, h')
    → (f g : Option (Format Obj)) × (validate_data_format x ≡ gives f)
      × (validate_data_format y ≡ gives g)
      × (next f g h ≡ some (gives a, h'))
validated_lem x y next a h h' e = elim (PyResult-cases (validate_data_format x)) [
  | inl (err, refused) ↦ absurd (ground (arith, refused, e))
  | inr (f, first) ↦ elim (PyResult-cases (validate_data_format y)) [
    | inl (err, refused) ↦ absurd (ground (arith, first, refused, e))
    | inr (g, second) ↦ (f, g, first, second, ground (arith, first, second, e))
  ]
]

-- The binding that `attach` hands to the class below.
abbrev pub binding_of :
    {Obj : Type 0}
    → Objects Obj
    → ByteOrder
    → (foo : List Obj → Kwargs Obj → PyResult Obj) (f g : Option (Format Obj))
      (max_sz_args max_sz_ret : ℕ)
    → CallbackBinding
binding_of o order foo f g max_sz_args max_sz_ret = record {
  callback = callback o order foo f g (size_for g max_sz_ret);
  arg_size = size_for f max_sz_args;
  ret_size = size_for g max_sz_ret;
}

module _ {Obj : Type 0} (o : Objects Obj) (order : ByteOrder) (os : Os) where
  pub attach_lem :
      (d d' : HostFunctionDispatcher) (name : List ℕ) (foo : List Obj → Kwargs Obj → PyResult Obj)
      (max_sz_args max_sz_ret : ℕ) (x y : DataFormat Obj) (address : ℤ) (h h' : World)
      → attach o order os d name foo max_sz_args max_sz_ret x y address h
        ≡ some (gives (gives tt, d'), h')
      → (f g : Option (Format Obj)) × (validate_data_format x ≡ gives f)
        × (validate_data_format y ≡ gives g)
        × (PyDispatcher.attach os d.core name
              (binding_of o order foo f g max_sz_args max_sz_ret)
              address
              h
            ≡ some ((ok tt, d'.core), h'))
  unfolding attach
  attach_lem d d' name foo max_sz_args max_sz_ret x y address h h' e =
      let (f, g, first, second, run) = validated_lem x y _ (gives tt, d') h h' e in
      (
        f,
        g,
        first,
        second,
        elim (Option-cases (
            PyDispatcher.attach os d.core name (binding_of o order foo f g max_sz_args max_sz_ret)
              address h)) [
                | inl undefined ↦ absurd (ground (arith, undefined, run))
                | inr (((raised err, core), w), called) ↦ absurd (ground (arith, called, run))
                | inr (((ok u, core), w), called) ↦ ground (arith, called, run)
              ],
      )

  pub new_lem :
      (name : List ℕ) (max_arg_size max_ret_size : ℕ) (x y : DataFormat Obj)
      (c : HostFunctionCaller Obj) (h h' : World)
      → new o order os name max_arg_size max_ret_size x y h ≡ some (gives c, h')
      → (validate_data_format x ≡ gives c.arg_format)
        × (validate_data_format y ≡ gives c.ret_format)
        × (c.max_arg_size ≡ size_for c.arg_format max_arg_size)
        × (c.max_ret_size ≡ size_for c.ret_format max_ret_size)
        × (PyCaller.new os name c.max_arg_size c.max_ret_size h ≡ some (ok c.core, h'))
  unfolding new
  new_lem name max_arg_size max_ret_size x y c h h' e =
      let (f, g, first, second, run) = validated_lem x y _ c h h' e in
      elim (Option-cases
        (PyCaller.new os name (size_for f max_arg_size) (size_for g max_ret_size) h)) [
          | inl undefined ↦ absurd (ground (arith, undefined, run))
          | inr ((raised err, w), made) ↦ absurd (ground (arith, made, run))
          | inr ((ok core, w), made) ↦
              let built : HostFunctionCaller Obj = record {
                arg_format = f;
                ret_format = g;
                max_arg_size = size_for f max_arg_size;
                max_ret_size = size_for g max_ret_size;
                core = core;
              } in
              let same : built ≡ c = ground (arith, made, run) in
              let world : w ≡ h' = ground (arith, made, run) in
              (
                first ∙ ap (λ (b : HostFunctionCaller Obj). gives b.arg_format) same,
                second ∙ ap (λ (b : HostFunctionCaller Obj). gives b.ret_format) same,
                subst
                    (λ (b : HostFunctionCaller Obj).
                      b.max_arg_size ≡ size_for b.arg_format max_arg_size)
                    same refl,
                subst
                    (λ (b : HostFunctionCaller Obj).
                      b.max_ret_size ≡ size_for b.ret_format max_ret_size)
                    same refl,
                subst
                    (λ (b : HostFunctionCaller Obj).
                      PyCaller.new os name b.max_arg_size b.max_ret_size h ≡ some (ok b.core, h'))
                    same (made ∙ ap (λ (v : World). some (ok core, v)) world),
              )
        ]
