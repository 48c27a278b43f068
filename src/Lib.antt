-- ===== src/Lib.antt =====
-- Verification library for nvidia-haiku, the port of the NVIDIA GPU driver to Haiku.
--
-- The program. `nvidia_gsp/nvidia` is a kernel driver that runs the resource manager, a third-party
-- library, on Haiku: it finds the GPUs, publishes device files for them, and gives the library its
-- memory, locks and timers. `nvidia_gsp/nvidia-modeset` does the same for the mode setting, over the
-- first driver's module interface. `nvrm_cpp_sdk` wraps the ioctls of both in C++ objects that own
-- what they allocate, and `accelerant` sets display modes and draws the cursor with it.
--
-- What models what. A definition has the name of the function it models, in this library's
-- spelling; paths are from the repository's root.
--   Pool: nvidia_gsp/nvidia/IntrSafePool.{h,cpp}. `State` has the pool, `Alloc` and `Free`; `Group`
--     the stack of pointers in it; `SizeClass` the choice of a group; `Maintain` the refill, cut where
--     it gives up the spinlock; `System` any number of threads in these calls; `Reclaim` the end.
--   Modeset.RefPtr: nvidia_gsp/nvidia-modeset/nv-kref.h and the `nvkms_ref_ptr` calls of
--     nvkms-haiku.cpp.
--   Modeset.TimerQueue: nvidia_gsp/nvidia-modeset/TimerQueue.{h,cpp}. Its children have the clients, the
--     timer interrupt and the DPC thread as steps (`System`), and what follows from them.
--   Driver: nvidia_gsp/nvidia/Driver.{h,cpp} and nvidia_gsp/DeviceNamesArray.{h,cpp}: the names of devices,
--     and in `Setup` the set-up and tear-down, with the module's (NvidiaModule.cpp).
--     `Hooks` is the part of nvidia_gsp/Drivers_cpp.h that opens and closes files.
--   Device: nvidia_gsp/nvidia/Device.{h,cpp}, and opening a GPU by its id in NvidiaModule.cpp.
--   Sdk: nvrm_cpp_sdk/FileDesc.h, NvRmApi.h, NvKmsSurface.h and NvRmDevice.{h,cpp}. `Owner` is the
--     interface that an owning class fills, `Program` any use of its objects. `Retry` is NvRmIoctl,
--     `Calls` the calls of NvRmApi.cpp with the exceptions of ErrorUtils.cpp, `Device` what
--     NvRmDevice.cpp makes out of them, and `Unwinding` the rules for exceptions.
--   Accelerant: accelerant/Accelerant.cpp, NvUtils.cpp and NvKmsBitmap.{h,cpp}. `Display` is
--     SetDisplayMode, `Dpms` the power states, `Cursor` the bitmap of the cursor and `Pointer` how it
--     is shown and moved. `Startup` is the constructor, `Memory` the requests of NvUtils.cpp, `Hooks` the
--     table that the app server calls,
--     `Getters` what it asks of the display, `Bitmap` the members that an NvKmsBitmap owns,
--     and `Allocation` the calls of its constructor.
--   Handles: nvidia_gsp/nvidia/BaseDevice.{h,cpp}, an open file, with nv_add_mapping_context_to_file and
--     nv_post_event of os-haiku.cpp. `Mapping` is its context, `Control` the map operation, `Ioctl` and
--     `Cards` the other ones, and `Select` its waiters and posts as steps, each with its event.
--   Modeset: `Client` is an open file of the modeset device (nvidia_gsp/nvidia-modeset/KmsDevice.{h,cpp}),
--     `Ioctl` its commands, `Setup` the driver (KmsDriver.{h,cpp}), and `Semaphore` the semaphores of nvkms-haiku.cpp and of
--     nvidia_gsp/nvidia/os-haiku.cpp.
--   Os: nvidia_gsp/nvidia/os-haiku.cpp. `Memory` is os_alloc_mem over the pool, `Spinlock` the spinlocks
--     with interrupts, `Pages` the memory for DMA, `Pci` the search for a device, `Firmware` its files,
--     `Screen` the screen at boot, `Process` the name of the process and the time, and `Copy` the copies
--     between the kernel and a process, with those of nvidia_gsp/nvidia-modeset/nvkms-haiku.cpp.
--   Prelude: the names, tests and lists that all of these share.
--
-- How state is modelled. The state of a component is a record that its operations take and give.
-- Where threads meet, a relation `Step` has one constructor for each stretch that runs under a lock or
-- atomically, and `Reach` is any sequence of steps. A pointer is `none` for null, or the name of
-- what it points to. A call that would touch deleted memory gives nothing; a kernel panic stops the
-- machine. An exception of C++ is an outcome, which runs the destructors of what is in scope. A number of w
-- bits that the code lets wrap around is taken modulo 2^w.
--
-- What is assumed. `calloc` gives null or a block as large as was asked for. The address of an object
-- is not used again while it is live or its callback runs. An interrupt number is not 0. There are
-- fewer than 2^31 devices and open handles, and fewer than 2^32 - 2 timers. The flags of a PCI
-- register and the bit of an interlaced mode, which system headers define, are parameters. So is
-- whether the destructor of a DPC queue, a class of Haiku, closes the queue. No exception of the
-- accelerant carries the error number 0.
--
-- Bounds and fuel. The loop that picks a group has 60 rounds: 2^63 is reached from 16 by 59
-- doublings, and after that the block size wraps to 0 and the loop does not end. `reclaim_all` has one
-- round more than a group has places. `maintain` has as many windows as the caller gives, and the
-- number that is enough is proved. The loop of NvRmIoctl runs on fuel for its turns, of
-- which it takes one more than there are interruptions. What the system answers to the SDK's calls is a
-- list, and a call after its end fails. A number of 32 bits has at most 10 decimal digits. Everything
-- else is structural recursion.
--
-- What is not modelled. The resource manager, the mode setting library and Haiku's kernel are
-- behind their calls. Stubs, the test programs, log output and the build are left out, as is what only
-- fills in the structure of an ioctl. Of the operating system layer (nvidia_gsp/nvidia/os-haiku.cpp) and
-- of the mode setting driver (nvidia-modeset/KmsDriver.cpp, nvkms-haiku.cpp) only the parts named above
-- are here.
pub mod Accelerant
pub mod Device
pub mod Driver
pub mod Handles
pub mod Modeset
pub mod Os
pub mod Pool
pub mod Prelude
pub mod Sdk
