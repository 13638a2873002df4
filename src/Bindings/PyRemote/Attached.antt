-- ===== src/Bindings/PyRemote/Attached.antt =====
-- A call of `PyHostFunctionCaller` that a function answers which `PyHostFunctionDispatcher` attached.
use robot_ipc.Common.{ℕ, ◌<◌, ◌≤◌, ◌≡◌, ◌≢◌, sym, ◌∙◌, arith, false, List, some, ℤ, pos, length}
use robot_ipc.Posix.{Os, World}
use robot_ipc.Posix.Balance.{is_int}
use robot_ipc.HostFunction.Remote.{IsFifo}
use robot_ipc.HostFunction.Remote.Messages.{Represents}
use robot_ipc.Bindings.{padded, ok}
use robot_ipc.Bindings.PyCaller
use robot_ipc.Bindings.PyCaller.{PyHostFunctionCaller, new-sizes}
use robot_ipc.Bindings.PyCallback.{bytes, CallbackBinding}
use robot_ipc.Bindings.PyDispatcher
use robot_ipc.Bindings.PyDispatcher.{PyHostFunctionDispatcher, attached-RunsCallback}
use robot_ipc.Bindings.PyRemote.{ask, empty, callback-sized, IsJoined, py_ask_answered}

-- A caller that was made with the sizes of the binding is joined to the entry that was attached.
pub attached-IsJoined :
    (pipe_of : ℤ → ℕ) (os : Os) (d d' : PyHostFunctionDispatcher) (c : PyHostFunctionCaller)
    (b : CallbackBinding) (name called : List ℕ) (address : ℤ) (g g' k k' : World)
    → is_int address (pos 0) ≡ false
    → PyDispatcher.attach os d name b address g ≡ some ((ok tt, d'), g')
    → PyCaller.new os called b.arg_size b.ret_size k ≡ some (ok c, k')
    → let e = d'.handle.entries d.handle.cnt_func in
      pipe_of c.handle.req_fd ≡ pipe_of e.req_fd
      → pipe_of c.handle.res_fd ≡ pipe_of e.res_fd
      → pipe_of e.req_fd ≢ pipe_of e.res_fd
      → IsJoined pipe_of os c e b
attached-IsJoined pipe_of os d d' c b name called address g g' k k' there attached made requests
      responses apart =
    let e = d'.handle.entries d.handle.cnt_func in
    let runs = attached-RunsCallback os d d' name b address g g' there attached in
    let (arg, ret, sz_arg, sz_ret, fits_arg, fits_ret) =
      new-sizes os called b.arg_size b.ret_size k k' c made in
    record {
      arg = sz_arg ∙ sym arg;
      ret = sz_ret ∙ sym ret;
      connected = record {
        requests = requests;
        responses = responses;
        apart = apart;
        same_arg = sz_arg ∙ sym runs.arg;
        same_ret = sz_ret ∙ sym runs.ret;
        fits_arg = omega (arith, runs.arg, fits_arg);
        fits_ret = omega (arith, runs.ret, fits_ret);
        whole = λ sent got found. callback-sized e b sent got runs found;
      };
      runs = runs;
    }

-- Over pipes that keep the order of their bytes and are empty before, let a function of Python be
-- attached in one process, and a caller be made in another with the same sizes, whose descriptors
-- are of the same two pipes. A call then gets the bytes that the function answers for the padded
-- payload, filled up with zeros, where payload and answer fit, and leaves the pipes empty.
pub py_attached_answered :
    (pipe_of : ℤ → ℕ) (os : Os) (d d' : PyHostFunctionDispatcher) (c : PyHostFunctionCaller)
    (b : CallbackBinding) (name called : List ℕ) (address : ℤ) (g g' k k' : World)
    → IsFifo pipe_of os
    → is_int address (pos 0) ≡ false
    → PyDispatcher.attach os d name b address g ≡ some ((ok tt, d'), g')
    → PyCaller.new os called b.arg_size b.ret_size k ≡ some (ok c, k')
    → let e = d'.handle.entries d.handle.cnt_func in
      pipe_of c.handle.req_fd ≡ pipe_of e.req_fd
      → pipe_of c.handle.res_fd ≡ pipe_of e.res_fd
      → pipe_of e.req_fd ≢ pipe_of e.res_fd
      → (payload answer : List ℕ) (h : World) → Represents pipe_of e h empty
      → length payload ≤ c.arg_size
      → b.callback (padded c.arg_size payload) ≡ bytes answer
      → 0 < c.ret_size
      → length answer ≤ c.ret_size
      → (c' : PyHostFunctionCaller) × (h' : World) × (ask os c e payload h
          ≡ some ((ok (padded c.ret_size answer), c'), h'))
        × Represents pipe_of e h' empty
py_attached_answered pipe_of os d d' c b name called address g g' k k' fifo there attached made
      requests responses apart =
    py_ask_answered pipe_of os c (d'.handle.entries d.handle.cnt_func) b fifo (
      attached-IsJoined pipe_of os d d' c b name called address g g' k k' there attached made
        requests responses apart)
