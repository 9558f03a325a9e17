-- ===== src/Platform.antt =====
-- core/src/monitor/platform: the operating system as a parameter, the shared mapping and the handle
-- on an observed process.
pub mod Kernel
pub mod SharedMemory
pub mod ProcessWatch
pub mod Resources
