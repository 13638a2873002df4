-- ===== src/Package/Function/Answered.antt =====
-- What travels in a call of the Python package, and a call that an entry for it answers.
use robot_ipc.Common.{
  ℕ, ◌-◌, ◌^◌, ◌≤◌, ◌<◌, ◌≡◌, ◌∙◌, ap, arith, false, List, [], ◌∷◌, ◌++◌, Option, none, some, ℤ,
  length, replicate, Option-cases, inl, inr,
}
use robot_ipc.Common.Bytes.{ByteOrder, IsByteOrder}
use robot_ipc.Posix.{Os, World}
use robot_ipc.HostFunction.Receiver.{Entry}
use robot_ipc.HostFunction.Receiver.Dispatch.{handle_call}
use robot_ipc.HostFunction.Remote.{IsFifo}
use robot_ipc.HostFunction.Remote.Messages.{Represents}
use robot_ipc.Bindings.{padded, ok, raised}
use robot_ipc.Bindings.PyCaller
use robot_ipc.Bindings.PyCaller.{PyHostFunctionCaller}
use robot_ipc.Bindings.PyCallback.{Answer, bytes, CallbackBinding}
use robot_ipc.Bindings.PyRemote.{empty, IsJoined, py_ask_answered}
use robot_ipc.Bindings.PyRemote
use robot_ipc.Package.{PyResult, gives, Kwargs, Objects, Format, size_field_bytes, decode_with}
use robot_ipc.Package.Codec.{
  Pickles, IsInstance, format_encoded, format_decoded, message, pickle_encoded, pickle_decoded,
}
use robot_ipc.Package.Function.{encode_call, apply_to, answer_of, callback}
use robot_ipc.Package.Function.Calls.{HostFunctionCaller, call, get_response, ask}

module _ {Obj : Type 0} (o : Objects Obj) (order : ByteOrder) where
  -- Arguments that pickle restores, and that `*` and `**` take apart.
  pub record ArePickled (args : List Obj) (kwargs : Kwargs Obj) (max_size : ℕ) : Type 0 where
    pub args_data : List ℕ
    pub kwargs_data : List ℕ
    pub args_pickled : Pickles o (o.tuple args) args_data
    pub kwargs_pickled : Pickles o (o.dict kwargs) kwargs_data
    pub short : length args_data < 256 ^ size_field_bytes
    pub fits : length (message order args_data kwargs_data) ≤ max_size
    pub positional : o.positional (o.tuple args) ≡ some args
    pub keywords : o.keywords (o.dict kwargs) ≡ some kwargs

  -- Arguments that can travel: by pickle, or one instance of the format.
  abbrev pub CanCall : Option (Format Obj) → (max_size : ℕ) → List Obj → Kwargs Obj → Type 0
  CanCall none max_size args kwargs = ArePickled args kwargs max_size
  CanCall (some f) max_size (x ∷ []) [] = IsInstance f x × (f.size ≤ max_size)
  CanCall (some f) max_size args kwargs = ⊥

  -- A result that can travel; None is not one.
  abbrev pub CanReturn : Option (Format Obj) → (max_size : ℕ) → Obj → Type 0
  CanReturn none max_size ret =
      (o.is_none ret ≡ false)
      × (payload : List ℕ) × (length payload ≤ max_size)
      × Pickles o ret payload
  CanReturn (some f) max_size ret = (o.is_none ret ≡ false) × IsInstance f ret × (f.size ≤ max_size)

  -- The payload of a call: it fits, and the callback applies the function to the arguments.
  call_payload :
      (lawful : IsByteOrder order) (f : Option (Format Obj)) (max_size : ℕ) (args : List Obj)
      (kwargs : Kwargs Obj) (foo : List Obj → Kwargs Obj → PyResult Obj)
      → CanCall f max_size args kwargs
      → (payload : List ℕ) × (length payload ≤ max_size)
        × (encode_call o order f max_size args kwargs ≡ gives payload)
        × ((rest : List ℕ) → apply_to o order foo f (payload ++ rest) ≡ foo args kwargs)
  call_payload lawful none max_size args kwargs foo p = (
    message order p.args_data p.kwargs_data,
    p.fits,
    pickle_encoded o order lawful args kwargs max_size p.args_data p.kwargs_data p.args_pickled
        p.kwargs_pickled p.short p.fits,
    λ rest. ground (
      arith,
      p.positional,
      p.keywords,
      pickle_decoded o order lawful args kwargs p.args_data p.kwargs_data rest p.args_pickled
          p.kwargs_pickled p.short,
    ),
  )
  call_payload lawful (some f) max_size (x ∷ []) [] foo (i, fits) = (
    f.string_at x,
    omega (arith, i.sized, fits),
    format_encoded f x max_size i fits,
    λ rest. ground (arith, format_decoded f x rest i),
  )
  call_payload lawful (some f) max_size [] kwargs foo none_given = absurd none_given
  call_payload lawful (some f) max_size (x ∷ []) (k ∷ kwargs) foo none_given = absurd none_given
  call_payload lawful (some f) max_size (x ∷ (y ∷ args)) kwargs foo none_given = absurd none_given

  -- The payload of a result.
  return_payload :
      (g : Option (Format Obj)) (max_size : ℕ) (ret : Obj)
      → CanReturn g max_size ret
      → (answer : List ℕ) × (length answer ≤ max_size)
        × (answer_of o order g max_size (gives ret) ≡ bytes answer)
        × ((rest : List ℕ) → decode_with o g (answer ++ rest) ≡ gives ret)
  return_payload none max_size ret (there, payload, fits, p) =
      (payload, fits, ground (arith, there, p.dumped), λ rest. ground (arith, p.loaded rest))
  return_payload (some f) max_size ret (there, i, fits) = (
    f.string_at ret,
    omega (arith, i.sized, fits),
    ground (arith, there, format_encoded f ret max_size i fits),
    λ rest. format_decoded f ret rest i,
  )

-- A caller whose messages go to an entry that runs `foo` for the same formats and sizes.
pub record IsServed {Obj : Type 0} (pipe_of : ℤ → ℕ) (os : Os) (o : Objects Obj) (order : ByteOrder)
    (c : HostFunctionCaller Obj) (e : Entry) (b : CallbackBinding)
    (foo : List Obj → Kwargs Obj → PyResult Obj) : Type 0 where
  pub joined : IsJoined pipe_of os c.core e b
  pub arg : c.core.arg_size ≡ c.max_arg_size
  pub ret : c.core.ret_size ≡ c.max_ret_size
  pub runs : b.callback ≡ callback o order foo c.arg_format c.ret_format c.max_ret_size

-- The three calls of the package, from those of the classes below.
ask_lem :
    {Obj : Type 0} (o : Objects Obj) (order : ByteOrder) (os : Os) (c : HostFunctionCaller Obj)
    (e : Entry) (args : List Obj) (kwargs : Kwargs Obj) (payload raw : List ℕ)
    (core : PyHostFunctionCaller) (h h' : World)
    → encode_call o order c.arg_format c.max_arg_size args kwargs ≡ gives payload
    → PyRemote.ask os c.core e payload h ≡ some ((ok raw, core), h')
    → ask o order os c e args kwargs h
      ≡ some ((decode_with o c.ret_format raw, record c { core = core }), h')
unfolding ask call get_response PyRemote.ask
ask_lem o order os c e args kwargs payload raw core h h' encoded run =
    elim (Option-cases (PyCaller.call os c.core payload h)) [
      | inl undefined ↦ absurd (ground (arith, undefined, run))
      | inr (((raised err, core₁), h₁), called) ↦ absurd (ground (arith, called, run))
      | inr (((ok u, core₁), h₁), called) ↦ elim (Option-cases (handle_call os e h₁)) [
        | inl undefined ↦ absurd (ground (arith, called, undefined, run))
        | inr ((v, h₂), turn) ↦ elim (Option-cases (PyCaller.get_response os core₁ h₂)) [
          | inl undefined ↦ absurd (ground (arith, called, turn, undefined, run))
          | inr (((result, core₂), h₃), got) ↦
              let result_is : result ≡ ok raw = ground (arith, called, turn, got, run) in
              let core_is : core₂ ≡ core = ground (arith, called, turn, got, run) in
              let world_is : h₃ ≡ h' = ground (arith, called, turn, got, run) in
              ground (arith, encoded, called, turn, got, result_is, core_is, world_is)
        ]
      ]
    ]

-- Where caller and entry fit, the call gives what the function returns.
pub served_lem :
    {Obj : Type 0} (pipe_of : ℤ → ℕ) (os : Os) (o : Objects Obj) (order : ByteOrder)
    (c : HostFunctionCaller Obj) (e : Entry) (b : CallbackBinding)
    (foo : List Obj → Kwargs Obj → PyResult Obj)
    → IsFifo pipe_of os
    → IsByteOrder order
    → IsServed pipe_of os o order c e b foo
    → (args : List Obj) (kwargs : Kwargs Obj) (ret : Obj) (h : World) → Represents pipe_of e h empty
    → CanCall o order c.arg_format c.max_arg_size args kwargs
    → foo args kwargs ≡ gives ret
    → CanReturn o order c.ret_format c.max_ret_size ret
    → 0 < c.max_ret_size
    → (c' : HostFunctionCaller Obj) × (h' : World) × (ask o order os c e args kwargs h
        ≡ some ((gives ret, c'), h'))
      × Represents pipe_of e h' empty
unfolding callback
served_lem {Obj} pipe_of os o order c e b foo fifo lawful served args kwargs ret h rep can_call
      returns can_return some_bytes =
    let core = c.core in
    let (payload, fits, encoded, applies) =
      call_payload o order lawful c.arg_format c.max_arg_size args kwargs foo can_call in
    let (answer, small, answered, decodes) =
      return_payload o order c.ret_format c.max_ret_size ret can_return in
    let answers : b.callback (padded core.arg_size payload) ≡ bytes answer =
      ap (λ (run : List ℕ → Answer). run (padded core.arg_size payload)) served.runs
      ∙ ap (answer_of o order c.ret_format c.max_ret_size)
          (applies (replicate (core.arg_size - length payload) 0) ∙ returns)
      ∙ answered in
    let (core', h', run, rep') =
      py_ask_answered pipe_of os core e b fifo served.joined payload answer h rep
        (omega (arith, fits, served.arg)) answers (omega (arith, some_bytes, served.ret))
        (omega (arith, small, served.ret)) in
    (
      record c { core = core' },
      h',
      ask_lem o order os c e args kwargs payload (padded core.ret_size answer) core' h h' encoded
            run
          ∙ ap (λ (r : PyResult Obj). some ((r, record c { core = core' }), h'))
              (decodes (replicate (core.ret_size - length answer) 0)),
      rep',
    )
