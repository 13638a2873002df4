-- ===== src/Lib.antt =====
-- robot_ipc: shared variables and host functions between processes on one machine.
--
-- The library has two parts, which share no state. A host variable (src/host_variable.c) is a
-- piece of shared memory with four buffers, a timestamp for each, and one 64-bit word of flags, by
-- which any number of processes read and write without blocking. A host function
-- (src/host_function_caller.c and src/host_function_receiver.c) is a function of one process that
-- others call over two named pipes; a dispatcher thread waits for the requests with epoll.
--
-- HostVariable/Flags.antt has what __acquire_read_lock, __release_read_lock and
-- write_host_variable compute from the flags, with every shift and mask on 64 bits (Word.antt and
-- its children). HostVariable/Process.antt has read_host_variable and write_host_variable as a
-- machine: a process stands at a point of a function with its live local variables, and `advance`
-- makes its next access to the shared memory, where each byte of memcpy is an access of its own.
-- HostVariable/System.antt interleaves any number of processes in any order (`Step`, `Reach`),
-- from the memory that link_host_variable leaves, with two records of the past that no code reads.
-- HostVariable/Lock.antt is the abstract lock that the flags implement, HostVariable/Refine.antt
-- ties the two, HostVariable/Contents.antt is the invariant over the bytes,
-- HostVariable/History.antt the log of published values, and HostVariable/Safety.antt and
-- HostVariable/Access.antt what follows for every reachable state. HostVariable/Progress.antt says
-- when no call is refused. HostVariable/Alone.antt runs the machine for a process that nobody
-- interrupts. HostVariable/Link.antt is link_host_variable and unlink_host_variable, call by call
-- and store by store; the loop that waits for the creator of a variable takes a number of rounds,
-- and HostVariable/Link/Waiting.antt says how many are enough. HostVariable/Signal.antt is the
-- handler of SIGINT, and HostVariable/Timestamp.antt the clock. The atomics are sequentially
-- consistent, as the C code asks for; the clock gives any numbers. A failed compare-exchange is
-- one step, and the loops have no fuel: a run is any finite sequence of steps.
--
-- Posix.antt has the calls of the C library as data. What they answer is a parameter `Os`, which
-- may depend on all the calls before; a run keeps the calls with their answers, and
-- Posix/Balance.antt counts in it what was opened, closed, allocated and freed.
-- HostFunction/Caller.antt and HostFunction/Receiver.antt follow the C functions call by call,
-- with each label as a function of its own; HostFunction/Receiver/Dispatch.antt is the
-- dispatcher's thread, for a given number of rounds of its endless loop, and
-- HostFunction/Receiver/Create.antt and HostFunction/Receiver/Delete.antt are the creation and
-- deletion of a dispatcher. A write outside of an array, and a use of memory that may be free, is
-- the result `none`. The functions that users attach are parameters: they give bytes or NULL for
-- the bytes of an argument.
--
-- Bindings.antt has the interface by which the classes of Python and C++ see a shared variable, as
-- operations with laws; Bindings/Solo.antt fills it with the machine of HostVariable/Alone.antt.
-- Bindings/PyVariable.antt (with Bindings/PyVariable/Machine.antt), Bindings/PyCaller.antt,
-- Bindings/PyCallback.antt and Bindings/PyDispatcher.antt are the classes of
-- src/python_bindings.cpp and its callback, Bindings/PyRemote.antt a call of one and the callback
-- of the other together, and Bindings/Cpp.antt the classes of include/robot_ipc.hpp, with the
-- checks of types in Bindings/Cpp/Traits.antt and a call with its answer in
-- Bindings/Cpp/Answered.antt. An exception is a value of `Error`. What a compiler makes of a type
-- and what a Python function answers are parameters. Logger.antt is src/robot_ipc_logger.c.
--
-- Package.antt and its children are the classes of src/robot_ipc/robot_ipc.py over those of
-- src/python_bindings.cpp: Package/Variable.antt is HostVariable, Package/Function.antt what a
-- call and the callback make of their payloads, and Package/Function/Calls.antt HostFunctionCaller
-- and HostFunctionDispatcher, which Package/Function/Attached.antt puts together. pickle, ctypes,
-- tuples and dicts are the parameters `Objects` and `Format`, and the bytes of an integer the
-- parameter `ByteOrder` of Common/Bytes.antt; a lemma that needs a round trip of theirs has it as
-- a hypothesis about the objects at hand.
--
-- HostVariable/Whole.antt is about values that every call moves whole, which is what the checksums
-- of examples/host_variable_integrity_check test: Examples/Integrity.antt is its writer and its
-- reader. Examples/Latency.antt has the differences of times of
-- examples/host_function_latency_test and examples/host_variable_latency_test.
--
-- HostFunction/Remote.antt puts a caller and a function of the dispatcher together over the two
-- pipes that join them; what the kernel does with a pipe, which holds a number of bytes, is the
-- hypothesis `IsFifo`, and a write that would wait for room is outside of every result.
-- HostFunction/Remote/Queues.antt is the service that callers expect, a queue of requests and a
-- queue of responses, and HostFunction/Remote/Service.antt ties the two;
-- HostFunction/Remote/Batch.antt has several functions of one dispatcher, with a batch of events,
-- and HostFunction/Remote/Shutdown.antt the message by which the deletion ends the thread: once it
-- is answered, a further use of the dispatcher by the thread is undefined, since the deletion
-- frees it.
--
-- Not modelled: the other examples and the scripts, which call the library and print; pickle,
-- ctypes, pybind11 and the interpreter's lock, which are not part of the repository. What a
-- function of a user does beside its result is outside of the model, and so is errno beyond the
-- bit EEXIST that the code tests. Every call of the system is answered: a call that waits for
-- ever, as the deletion's read of the thread's answer may, or a write to a full pipe, is a run
-- that stands there.
mod Common
mod Word
pub mod HostVariable
pub mod Posix
pub mod HostFunction
pub mod Logger
pub mod Bindings
pub mod Package
pub mod Examples
