-- ===== src/Driver/Setup/Balanced.antt =====
-- What nvidia_gsp/nvidia/Driver.cpp holds after its set-up and its tear-down.
use mathlib.Core.Option
use nvidia_haiku.Prelude.{
  ℕ, zero, suc, ◌+◌, ◌-◌, ◌≡◌, ◌≢◌, ◌⊎◌, inl, inr, refl, ap, sym, subst, ◌∙◌, Bool, true, false,
  Option, some, List, [], ◌∷◌, arith,
}
use nvidia_haiku.Driver.Setup.{
  Machine, Driver, new_driver, Status, b_ok, b_error, b_no_memory, Probed, unsupported, added,
  no_room, Answers, delete_devices, destroy, scan_pci, finish_init, or_destroy, module_init,
  module_uninit, idle,
}

abbrev up : ℕ → Driver
up n = record { has_pci = true; init_rm_done = true; control_device = true; count = n }

abbrev running : (pci_refs devices : ℕ) → Machine
running pci_refs devices = record {
  pci_refs = pci_refs + 1;
  pool_filled = true;
  rm_runs = true;
  control = true;
  devices = devices;
}

delete_devices-running : (refs n : ℕ) → delete_devices n (running refs n) ≡ some (running refs 0)
unfolding delete_devices
delete_devices-running refs zero = refl
delete_devices-running refs (suc n) =
    ap (λ k. delete_devices n (running refs k)) (omega arith) ∙ delete_devices-running refs n

destroy-up : (refs n : ℕ) → destroy (up n) (running refs n) ≡ some (idle refs)
unfolding destroy
destroy-up refs n =
    rw (delete_devices-running refs n, destroy) (ap (λ k. some (idle k)) (omega arith))

-- What a scan leaves.
record Scanned (refs : ℕ) (result : Option (Status × Driver × Machine)) : Type 0 where
  status : Status
  count : ℕ
  gives : result ≡ some (status, up count, running refs count)

scan_pci-Scanned :
    (refs : ℕ) (probes : List Probed) (n : ℕ)
    → Scanned refs (scan_pci probes (up n) (running refs n))
unfolding scan_pci
scan_pci-Scanned refs [] n = record { status = b_ok; count = n; gives = refl }
scan_pci-Scanned refs (unsupported ∷ probes) n = scan_pci-Scanned refs probes n
scan_pci-Scanned refs (added ∷ probes) n = scan_pci-Scanned refs probes (n + 1)
scan_pci-Scanned refs (no_room ∷ probes) n = record {
  status = b_no_memory;
  count = n;
  gives = ap (λ k. some (b_no_memory, up n, running refs k)) (omega arith);
}

-- A driver that is up and can be taken down, or one that failed and left nothing.
pub record IsBalanced (refs : ℕ) (result : Option (Status × Driver × Machine)) : Type 0 where
  pub status : Status
  pub driver : Driver
  pub machine : Machine
  pub gives : result ≡ some (status, driver, machine)
  pub balanced :
      ((status ≡ b_ok) × (module_uninit driver machine ≡ some (idle refs)))
      ⊎ ((status ≢ b_ok) × (machine ≡ idle refs))

b_error≢ok : b_error ≢ b_ok
b_error≢ok e = cc

b_no_memory≢ok : b_no_memory ≢ b_ok
b_no_memory≢ok e = cc

failed :
    (refs : ℕ) (status : Status) (d : Driver) (m : Machine)
    → status ≢ b_ok
    → destroy d m ≡ some (idle refs)
    → IsBalanced refs (or_destroy (status, d, m))
failed refs b_ok d m h e = absurd (h refl)
failed refs b_error d m h e = record {
  status = b_error;
  driver = d;
  machine = idle refs;
  gives = ap (Option.map (λ (m' : Machine). (b_error, d, m'))) e;
  balanced = inr (h, refl);
}
failed refs b_no_memory d m h e = record {
  status = b_no_memory;
  driver = d;
  machine = idle refs;
  gives = ap (Option.map (λ (m' : Machine). (b_no_memory, d, m'))) e;
  balanced = inr (h, refl);
}

finished :
    (refs : ℕ) (memory : Bool) (status : Status) (n : ℕ)
    → IsBalanced refs (or_destroy (finish_init memory (status, up n, running refs n)))
finished refs true b_ok n = record {
  status = b_ok;
  driver = up n;
  machine = running refs n;
  gives = refl;
  balanced = inl (refl, destroy-up refs n);
}
finished refs false b_ok n =
    failed refs b_no_memory (up n) (running refs n) b_no_memory≢ok (destroy-up refs n)
finished refs memory b_error n =
    failed refs b_error (up n) (running refs n) b_error≢ok (destroy-up refs n)
finished refs memory b_no_memory n =
    failed refs b_no_memory (up n) (running refs n) b_no_memory≢ok (destroy-up refs n)

nothing_left :
    (refs : ℕ) (status : Status) (d : Driver)
    → status ≢ b_ok
    → IsBalanced refs (some (status, d, idle (refs + 1 - 1)))
nothing_left refs status d h = record {
  status = status;
  driver = d;
  machine = idle (refs + 1 - 1);
  gives = refl;
  balanced = inr (h, ap idle (omega arith));
}

-- On a machine without the driver, whatever the answers are, the set-up of the module ends: with the
-- driver up, so that taking it down gives the machine back as it was, or with an error, and the machine
-- is as it was. In each of these the devices and the control device are deleted before the resource
-- manager is shut down, and the pool is emptied after that.
pub module_init-IsBalanced : (a : Answers) (refs : ℕ) → IsBalanced refs (module_init a (idle refs))
unfolding module_init
module_init-IsBalanced a refs = with_answers a.pci_found a.rm_starts a.control_memory
  where
    with_answers :
        (pci rm control : Bool)
        → IsBalanced refs (
            module_init
              (record a { pci_found = pci; rm_starts = rm; control_memory = control })
              (idle refs))
    with_answers false rm control = failed refs b_error new_driver (idle refs) b_error≢ok refl
    with_answers true false control = nothing_left refs b_error _ b_error≢ok
    with_answers true true false = nothing_left refs b_no_memory _ b_no_memory≢ok
    with_answers true true true =
        let s = scan_pci-Scanned refs a.probes 0 in
        subst
          (λ (r : Option (Status × Driver × Machine)).
            IsBalanced refs (Option.bind (Option.map (finish_init a.names_memory) r) or_destroy))
          (sym s.gives) (finished refs a.names_memory s.status s.count)
