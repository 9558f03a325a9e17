-- ===== src/Tests.antt =====
-- Runs of the definitions on concrete data, after core/tests/monitor/watchdog_tests.cpp, and the
-- theorems at concrete inputs.
mod Data
mod Ring
mod Watch
mod Command
mod System
mod Proc
mod Console
mod Heartbeats
mod Process
mod Contract
mod Lifetime
mod Turns
mod Gap
mod Reordered
