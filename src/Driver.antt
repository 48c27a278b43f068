-- ===== src/Driver.antt =====
-- nvidia_gsp/nvidia/Driver.{h,cpp} and nvidia_gsp/DeviceNamesArray.{h,cpp}: the devices that the
-- driver finds, the names that it publishes for them, and the way back from a name to its device.
pub mod Decimal
pub mod Parse
pub mod Canonical
pub mod Names
pub mod Find
pub mod Setup
pub mod Hooks
mod Examples
