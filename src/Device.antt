-- ===== src/Device.antt =====
-- nvidia_gsp/nvidia/Device.{h,cpp} and the calls of nvidia_gsp/nvidia/NvidiaModule.cpp on it: one GPU,
-- which is started when the first reference is taken and stopped when the last is given back.
--
-- `handlers` is the number of times that the interrupt handler is installed, `msi` whether the
-- device's interrupt is enabled, and `master` the bus master bit of the PCI command
-- register. All else of the adapter is the resource manager's.
pub mod System
pub mod Bars
pub mod Gpus
pub mod Race
mod Examples
use nvidia_haiku.Prelude.{
  ℕ, zero, suc, ◌+◌, ◌-◌, ◌%◌, ◌^◌, Bool, true, false, ◌&&◌, ◌||◌, List, [], ◌∷◌, ◌==◌, ltb,
  if◌then◌else◌, not,
}

pub data Status : Type 0 where
  b_ok : Status
  b_error : Status
  b_io_error : Status
  b_no_memory : Status
  enodev : Status

pub record Device : Type 0 where
  pub open_count : ℕ
  pub init_hardware : Bool
  pub irq : ℕ
  pub handlers : ℕ
  pub msi : Bool
  pub master : Bool

-- What the PCI bus and the resource manager answer to one call of `Start`.
pub record Answers : Type 0 where
  pub msi_count : ℕ
  pub msi_configured : Bool
  pub msi_irq : ℕ
  pub msi_enabled : Bool
  pub handler_installed : Bool
  pub init_adapter : Bool

abbrev pub new_device : Device
new_device = record {
  open_count = 0;
  init_hardware = false;
  irq = 0;
  handlers = 0;
  msi = false;
  master = false;
}

-- `configure_msi`, which stores the interrupt where it succeeds, `enable_msi` and
-- `install_io_interrupt_handler`. Their errors are not looked at.
abbrev pub install : Answers → Device → Device
install a d = record d {
  irq = if a.msi_configured then a.msi_irq else d.irq;
  handlers = if a.handler_installed then d.handlers + 1 else d.handlers;
  msi = if a.msi_enabled then true else d.msi;
}

-- `NvHaikuDevice::Start`.
unfoldable pub start : Answers → Device → Status × Device
start a d =
    let on = record d { master = true } in
    let up = install a on in
    if ltb a.msi_count 1
    then (b_error, on)
    else if not a.init_adapter
    then (b_io_error, up)
    else (b_ok, record up { init_hardware = true })

-- `NvHaikuDevice::Stop`.
unfoldable pub stop : Device → Device
stop d =
    let down = record d { init_hardware = false } in
    record (if not (d.irq == 0)
      then record down { handlers = d.handlers - 1; msi = false }
      else down) { master = false }

-- `std::atomic<int32>`, as a 32-bit pattern.
abbrev pub count_up : Device → Device
count_up d = record d { open_count = (d.open_count + 1) % 2 ^ 32 }

abbrev pub count_down : Device → Device
count_down d = record d { open_count = (d.open_count + (2 ^ 32 - 1)) % 2 ^ 32 }

-- `res < B_OK`.
abbrev pub settle : Status × Device → Status × Device
settle (b_ok, d) = (b_ok, d)
settle (b_error, d) = (b_error, count_down d)
settle (b_io_error, d) = (b_io_error, count_down d)
settle (b_no_memory, d) = (b_no_memory, count_down d)
settle (enodev, d) = (enodev, count_down d)

-- `NvHaikuDevice::AcquireRef`, from beginning to end.
unfoldable pub acquire_ref : Answers → Device → Status × Device
unfolding start
acquire_ref a d = if d.open_count == 0 then settle (start a (count_up d)) else (b_ok, count_up d)

-- `NvHaikuDevice::ReleaseRef`.
unfoldable pub release_ref : Device → Device
unfolding stop
release_ref d = if d.open_count == 1 then stop (count_down d) else count_down d

-- `NvHaikuDevice::Open`: whether there is memory for the handle, and the reference.
unfoldable pub open_device : Bool → Answers → Device → Status × Device
unfolding acquire_ref
open_device memory a d = if memory then acquire_ref a d else (b_no_memory, d)

-- `NvHaikuDeviceHandle::Close`, for what it does to the device.
unfoldable pub close_device : Device → Device
unfolding release_ref
close_device d = release_ref d

-- `NvHaikuDevice::InterruptHandlerInt`: whether `fDeferredInterruptHandler` is queued, by what
-- `rm_isr` returned and by `needBottomHalf`.
unfoldable pub queues_bottom_half : (is_isr_handled need_bottom_half : Bool) → Bool
queues_bottom_half is_isr_handled need_bottom_half = is_isr_handled && need_bottom_half
