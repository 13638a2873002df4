-- ===== src/Package/Function/Attached.antt =====
-- A call of the Python package that a function attached by the Python package answers.
use robot_ipc.Common.{ℕ, ◌<◌, ◌≡◌, ◌≢◌, sym, ◌∙◌, ap, ap₂, arith, false, List, Option, some, ℤ, pos}
use robot_ipc.Common.Bytes.{ByteOrder, IsByteOrder}
use robot_ipc.Posix.{Os, World}
use robot_ipc.Posix.Balance.{is_int}
use robot_ipc.HostFunction.Remote.{IsFifo}
use robot_ipc.HostFunction.Remote.Messages.{Represents}
use robot_ipc.Bindings.{ok}
use robot_ipc.Bindings.PyCaller
use robot_ipc.Bindings.PyCaller.{PyHostFunctionCaller, new-sizes}
use robot_ipc.Bindings.PyCallback.{CallbackBinding}
use robot_ipc.Bindings.PyDispatcher
use robot_ipc.Bindings.PyDispatcher.{attached-RunsCallback}
use robot_ipc.Bindings.PyRemote.{empty}
use robot_ipc.Package.{PyResult, gives, Kwargs, Objects, Format, DataFormat}
use robot_ipc.Package.Function.{callback}
use robot_ipc.Package.Function.Calls.{HostFunctionCaller, HostFunctionDispatcher, new, attach, ask}
use robot_ipc.Package.Function.Constructed.{binding_of, attach_lem, new_lem}
use robot_ipc.Bindings.PyRemote.Attached.{attached-IsJoined}
use robot_ipc.Package.Function.Answered.{CanCall, CanReturn, IsServed, served_lem}

-- The function that was attached serves the caller that was made for the same formats and sizes.
attached-IsServed :
    {Obj : Type 0} (pipe_of : ℤ → ℕ) (os : Os) (o : Objects Obj) (order : ByteOrder)
    (x y : DataFormat Obj) (max_arg_size max_ret_size : ℕ)
    (foo : List Obj → Kwargs Obj → PyResult Obj) (d d' : HostFunctionDispatcher)
    (c : HostFunctionCaller Obj) (name called : List ℕ) (address : ℤ) (v v' k k' : World)
    → is_int address (pos 0) ≡ false
    → attach o order os d name foo max_arg_size max_ret_size x y address v
      ≡ some (gives (gives tt, d'), v')
    → new o order os called max_arg_size max_ret_size x y k ≡ some (gives c, k')
    → let e = d'.core.handle.entries d.core.handle.cnt_func in
      pipe_of c.core.handle.req_fd ≡ pipe_of e.req_fd
      → pipe_of c.core.handle.res_fd ≡ pipe_of e.res_fd
      → pipe_of e.req_fd ≢ pipe_of e.res_fd
      → (b : CallbackBinding) × IsServed pipe_of os o order c e b foo
attached-IsServed {Obj} pipe_of os o order x y max_arg_size max_ret_size foo d d' c name called
      address v v' k k' there attached made requests responses apart =
    let e = d'.core.handle.entries d.core.handle.cnt_func in
    let (f₁, g₁, first, second, run) =
      attach_lem o order os d d' name foo max_arg_size max_ret_size x y address v v' attached in
    let (first', second', arg_max, ret_max, linked) =
      new_lem o order os called max_arg_size max_ret_size x y c k k' made in
    let same_f : f₁ ≡ c.arg_format = ground (arith, first, first') in
    let same_g : g₁ ≡ c.ret_format = ground (arith, second, second') in
    let b = binding_of o order foo c.arg_format c.ret_format max_arg_size max_ret_size in
    let bound : PyDispatcher.attach os d.core name b address v ≡ some ((ok tt, d'.core), v') =
      sym (
        ap₂
          (λ (f g : Option (Format Obj)).
            PyDispatcher.attach os d.core name
              (binding_of o order foo f g max_arg_size max_ret_size) address v)
          same_f same_g)
      ∙ run in
    let made_core : PyCaller.new os called b.arg_size b.ret_size k ≡ some (ok c.core, k') =
      ap₂ (λ (m n : ℕ). PyCaller.new os called m n k) (sym arg_max) (sym ret_max) ∙ linked in
    let (arg, ret_size, sz_arg, sz_ret, fits_arg, fits_ret) =
      new-sizes os called c.max_arg_size c.max_ret_size k k' c.core linked in
    (
      b,
      record {
        joined =
            attached-IsJoined pipe_of os d.core d'.core c.core b name called address v v' k k' there
              bound made_core requests responses apart;
        arg = arg;
        ret = ret_size;
        runs = ap (callback o order foo c.arg_format c.ret_format) (sym ret_max);
      },
    )

-- Over pipes that keep the order of their bytes and are empty before, let the Python package attach
-- a function, and make a caller with the same formats and sizes, whose descriptors are of the same
-- two pipes. A call then gives what the function returns for the arguments, where arguments and
-- result can travel: no exception is raised, and the pipes are empty again.
pub package_call_answered :
    {Obj : Type 0} (pipe_of : ℤ → ℕ) (os : Os) (o : Objects Obj) (order : ByteOrder)
    (x y : DataFormat Obj) (max_arg_size max_ret_size : ℕ)
    (foo : List Obj → Kwargs Obj → PyResult Obj) (d d' : HostFunctionDispatcher)
    (c : HostFunctionCaller Obj) (name called : List ℕ) (address : ℤ) (g g' k k' : World)
    → IsFifo pipe_of os
    → IsByteOrder order
    → is_int address (pos 0) ≡ false
    → attach o order os d name foo max_arg_size max_ret_size x y address g
      ≡ some (gives (gives tt, d'), g')
    → new o order os called max_arg_size max_ret_size x y k ≡ some (gives c, k')
    → let e = d'.core.handle.entries d.core.handle.cnt_func in
      pipe_of c.core.handle.req_fd ≡ pipe_of e.req_fd
      → pipe_of c.core.handle.res_fd ≡ pipe_of e.res_fd
      → pipe_of e.req_fd ≢ pipe_of e.res_fd
      → (args : List Obj) (kwargs : Kwargs Obj) (ret : Obj) (h : World)
      → Represents pipe_of e h empty
      → CanCall o order c.arg_format c.max_arg_size args kwargs
      → foo args kwargs ≡ gives ret
      → CanReturn o order c.ret_format c.max_ret_size ret
      → 0 < c.max_ret_size
      → (c' : HostFunctionCaller Obj) × (h' : World) × (ask o order os c e args kwargs h
          ≡ some ((gives ret, c'), h'))
        × Represents pipe_of e h' empty
package_call_answered pipe_of os o order x y max_arg_size max_ret_size foo d d' c name called
      address g g' k k' fifo lawful there attached made requests responses apart args kwargs ret h
      rep can_call returns can_return some_bytes =
    let (b, served) =
      attached-IsServed pipe_of os o order x y max_arg_size max_ret_size foo d d' c name called
        address g g' k k' there attached made requests responses apart in
    let e = d'.core.handle.entries d.core.handle.cnt_func in
    served_lem pipe_of os o order c e b foo fifo lawful served args kwargs ret h rep can_call
      returns can_return some_bytes
