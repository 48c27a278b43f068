-- ===== src/Driver/Examples.antt =====
-- Runs of the naming in nvidia_gsp/nvidia/Driver.cpp for twelve devices.
use nvidia_haiku.Prelude.{
  ℕ, ◌≡◌, ◌≢◌, ◌⊎◌, refl, List, [], ◌∷◌, some, none, true, arith, get_elem?, ◌++◌, replicate,
}
use nvidia_haiku.Driver.Decimal.{write_digits}
use nvidia_haiku.Driver.Parse.{device_name_prefix}
use nvidia_haiku.Driver.Names.{
  DeviceNamesArray, publish, init, name_all, name_devices, set_name, device_name, until_null,
}
use nvidia_haiku.Driver.Find.{node_at, no_node}
use nvidia_haiku.Driver.Hooks
use nvidia_haiku.Driver.Hooks.{Classes, open_hook, open_node, open_hook-published}
use nvidia_haiku.Driver.Setup.{Answers, added, no_room, unsupported, idle, module_init}
use nvidia_haiku.Driver.Setup.Balanced.{IsBalanced, module_init-IsBalanced}

abbrev devices : List ℕ
devices = 500 ∷ 501 ∷ 502 ∷ 503 ∷ 504 ∷ 505 ∷ 506 ∷ 507 ∷ 508 ∷ 509 ∷ 510 ∷ 511 ∷ []

abbrev names : DeviceNamesArray
unfolding name_all name_devices set_name device_name write_digits
names = name_all (λ _. true) 12 (replicate 14 none)

abbrev answers : Answers
answers = record {
  pci_found = true;
  rm_starts = true;
  control_memory = true;
  probes = added ∷ unsupported ∷ added ∷ no_room ∷ [];
  names_memory = true;
}

module_init-IsBalanced_example : IsBalanced 3 (module_init answers (idle 3))
module_init-IsBalanced_example = module_init-IsBalanced answers 3

-- Classes whose state is the list of the nodes that were opened, by the device's object.
abbrev classes : Classes ℕ (List ℕ)
classes = record {
  open_control = λ opened. (Hooks.b_ok, some 90, 0 ∷ opened);
  open_device = λ d opened. (Hooks.b_ok, some 91, d ∷ opened);
  close_handle = λ cookie opened. (Hooks.b_ok, opened);
  delete_handle = λ cookie opened. opened;
}

open_hook-published_example :
    ((i : ℕ) × (get_elem? (until_null names) i ≡ some (device_name_prefix ++ 55 ∷ []))
      × (open_hook classes devices (device_name_prefix ++ 55 ∷ []) none []
          ≡ open_node classes (node_at devices i) none [])
      × (node_at devices i ≢ no_node))
    ⊎ (((i : ℕ) → get_elem? (until_null names) i ≢ some (device_name_prefix ++ 55 ∷ []))
        × (open_hook classes devices (device_name_prefix ++ 55 ∷ []) none []
            ≡ (Hooks.enoent, none, [])))
unfolding names name_all name_devices set_name device_name write_digits publish init
open_hook-published_example =
    open_hook-published classes devices {names = names} (device_name_prefix ++ 55 ∷ []) none []
      (omega arith) refl
