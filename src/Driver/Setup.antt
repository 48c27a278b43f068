-- ===== src/Driver/Setup.antt =====
-- Set-up and tear-down of the kernel driver: `Init` and the destructor of nvidia_gsp/nvidia/Driver.cpp, as
-- nvidia_gsp/nvidia/NvidiaModule.cpp calls them. What the system and the resource manager answer are
-- parameters.
pub mod Balanced
use mathlib.Core.Option
use nvidia_haiku.Prelude.{
  ℕ, zero, suc, ◌+◌, ◌-◌, ◌≤◌, ◌<◌, ◌≡◌, ◌≢◌, ◌⊎◌, inl, inr, refl, ap, sym, ◌∙◌, Bool, true, false,
  not, ◌&&◌, ◌||◌, Option, none, some, none≢some, some-injective, List, [], ◌∷◌, ◌==◌,
  if◌then◌else◌, arith,
}

-- How often the PCI module is held, whether the pool is filled, whether the resource manager runs,
-- whether there is a control device, and how many devices there are.
pub record Machine : Type 0 where
  pub pci_refs : ℕ
  pub pool_filled : Bool
  pub rm_runs : Bool
  pub control : Bool
  pub devices : ℕ

-- `fPCI` by whether it is set, `fInitRmDone`, `fControlDevice` and the length of `fDevices`.
pub record Driver : Type 0 where
  pub has_pci : Bool
  pub init_rm_done : Bool
  pub control_device : Bool
  pub count : ℕ

abbrev pub new_driver : Driver
new_driver = record { has_pci = false; init_rm_done = false; control_device = false; count = 0 }

pub data Status : Type 0 where
  b_ok : Status
  b_error : Status
  b_no_memory : Status

-- A device on the PCI bus: not for this driver, or one for which there is room in the list or not.
pub data Probed : Type 0 where
  unsupported : Probed
  added : Probed
  no_room : Probed

pub record Answers : Type 0 where
  pub pci_found : Bool
  pub rm_starts : Bool
  pub control_memory : Bool
  pub probes : List Probed
  pub names_memory : Bool

-- The resource manager has to run while there are devices, and its memory is the pool's. A call that
-- comes too early or too late is a crash, none.
abbrev pub delete_device : Machine → Option Machine
delete_device m = if m.rm_runs then some (record m { devices = m.devices - 1 }) else none

abbrev pub delete_control : Machine → Option Machine
delete_control m = if m.rm_runs then some (record m { control = false }) else none

abbrev pub shutdown_rm : Machine → Option Machine
shutdown_rm m =
    if m.pool_filled && (m.devices == 0) && not m.control
    then some (record m { rm_runs = false })
    else none

abbrev pub reclaim_pool : Machine → Option Machine
reclaim_pool m = if m.rm_runs then none else some (record m { pool_filled = false })

-- The loop of the destructor over the devices.
unfoldable pub delete_devices : ℕ → Machine → Option Machine
unfolding Option.bind
delete_devices zero m = some m
delete_devices (suc n) m = Option.bind (delete_device m) (delete_devices n)

-- The destructor.
unfoldable pub destroy : Driver → Machine → Option Machine
unfolding Option.bind delete_devices
destroy d m = Option.bind (delete_devices d.count m) λ m1.
    Option.bind (if d.control_device then delete_control m1 else some m1) λ m2.
      Option.bind (if d.init_rm_done then shutdown_rm m2 else some m2) λ m3.
        Option.bind (reclaim_pool m3)
          λ m4. some (if d.has_pci then record m4 { pci_refs = m4.pci_refs - 1 } else m4)

-- The loop over the PCI bus. A device that does not fit into the list is deleted.
unfoldable pub scan_pci : List Probed → Driver → Machine → Option (Status × Driver × Machine)
unfolding Option.bind
scan_pci [] d m = some (b_ok, d, m)
scan_pci (unsupported ∷ probes) d m = scan_pci probes d m
scan_pci (added ∷ probes) d m =
    scan_pci probes (record d { count = d.count + 1 }) (record m { devices = m.devices + 1 })
scan_pci (no_room ∷ probes) d m =
    Option.bind (delete_device (record m { devices = m.devices + 1 }))
      (λ m'. some (b_no_memory, d, m'))

-- The end of `Init`.
abbrev pub finish_init : Bool → Status × Driver × Machine → Status × Driver × Machine
finish_init memory (b_ok, d, m) = (if memory then b_ok else b_no_memory, d, m)
finish_init memory (b_error, d, m) = (b_error, d, m)
finish_init memory (b_no_memory, d, m) = (b_no_memory, d, m)

-- `Init`.
unfoldable pub init : Answers → Driver → Machine → Option (Status × Driver × Machine)
unfolding scan_pci
init a d m =
    if not a.pci_found
    then some (b_error, d, m)
    else let d1 = record d { has_pci = true } in
      let m1 = record m { pci_refs = m.pci_refs + 1; pool_filled = true } in
      if not a.rm_starts
      then some (b_error, d1, m1)
      else let d2 = record d1 { init_rm_done = true } in
        let m2 = record m1 { rm_runs = true } in
        if not a.control_memory
        then some (b_no_memory, d2, m2)
        else Option.map (finish_init a.names_memory)
            (scan_pci a.probes (record d2 { control_device = true }) (record m2 { control = true }))

-- From what `Init` gives on.
abbrev pub or_destroy : Status × Driver × Machine → Option (Status × Driver × Machine)
or_destroy (b_ok, d, m) = some (b_ok, d, m)
or_destroy (b_error, d, m) = Option.map (λ m'. (b_error, d, m')) (destroy d m)
or_destroy (b_no_memory, d, m) = Option.map (λ m'. (b_no_memory, d, m')) (destroy d m)

-- `nvidia_module_init`, and the driver where it is up.
unfoldable pub module_init : Answers → Machine → Option (Status × Driver × Machine)
unfolding Option.bind init destroy
module_init a m = Option.bind (init a new_driver m) or_destroy

-- `nvidia_module_uninit`.
abbrev pub module_uninit : Driver → Machine → Option Machine
module_uninit = destroy

-- A machine without the driver.
abbrev pub idle : ℕ → Machine
idle pci_refs = record {
  pci_refs = pci_refs;
  pool_filled = false;
  rm_runs = false;
  control = false;
  devices = 0;
}
