-- ===== src/HostFunction.antt =====
-- src/host_function_caller.c and src/host_function_receiver.c: functions that another process
-- calls over named pipes.
pub mod Pipe
pub mod Caller
pub mod Receiver
pub mod Remote
pub mod Tests
