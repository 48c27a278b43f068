-- ===== src/Os.antt =====
-- nvidia_gsp/nvidia/os-haiku.cpp: what the resource manager asks of the operating system.
pub mod Memory
pub mod Spinlock
pub mod Pages
pub mod Screen
pub mod Process
pub mod Copy
pub mod Pci
pub mod Firmware
mod Examples
