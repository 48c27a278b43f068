-- ===== src/Modeset.antt =====
-- nvidia_gsp/nvidia-modeset: the driver of the modeset device.
pub mod RefPtr
pub mod TimerQueue
pub mod Client
pub mod Ioctl
pub mod Setup
pub mod Semaphore
mod Examples
