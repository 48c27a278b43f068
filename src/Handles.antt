-- ===== src/Handles.antt =====
-- nvidia_gsp/nvidia/BaseDevice.{h,cpp}: an open file of the kernel driver.
pub mod Mapping
pub mod Control
pub mod Ioctl
pub mod Cards
pub mod Select
mod Examples
