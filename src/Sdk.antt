-- ===== src/Sdk.antt =====
-- nvrm_cpp_sdk: the C++ objects that own file descriptors, handles of the resource manager and of
-- the mode setting, and memory mappings.
pub mod Owner
pub mod FileDesc
pub mod RmObject
pub mod KmsSurface
pub mod Program
pub mod Conservation
pub mod Mapping
pub mod Retry
pub mod Calls
pub mod Unwinding
pub mod Device
mod Examples
mod Runs
