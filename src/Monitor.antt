-- ===== src/Monitor.antt =====
-- vmmonitor.c: the monitor, with which a user stops, inspects and changes the machine.
pub mod Breakpoint
pub mod Memory
pub mod Files
pub mod Trap
pub mod Commands
pub mod Prompt
pub mod Console
