-- ===== src/Accelerant.antt =====
-- accelerant/Accelerant.cpp and accelerant/NvKmsBitmap.{h,cpp}: display modes and the hardware
-- cursor. The resource manager and the mode setting are behind their calls.
pub mod Timings
pub mod Memory
pub mod Agreement
pub mod Startup
pub mod Displays
pub mod ModeList
pub mod Propose
pub mod Limits
pub mod Cursor
pub mod Display
pub mod Pointer
pub mod Dpms
pub mod Hooks
pub mod Getters
pub mod Bitmap
pub mod Allocation
mod Examples
mod Tests
