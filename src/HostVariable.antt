-- ===== src/HostVariable.antt =====
-- src/host_variable.c: a shared variable as four buffers under one word of flags.
pub mod Flags
pub mod Timestamp
pub mod Process
pub mod Lock
pub mod System
pub mod Refine
pub mod Contents
pub mod History
pub mod Access
pub mod Progress
pub mod Safety
pub mod Whole
pub mod Signal
pub mod Alone
pub mod Link
mod Tests
