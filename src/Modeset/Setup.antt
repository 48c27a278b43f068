-- ===== src/Modeset/Setup.antt =====
-- nvidia_gsp/nvidia-modeset/KmsDriver.{h,cpp}: the driver is set up and taken down. What the module
-- loader, the timer queue and the mode setting library answer are parameters, and so is whether the
-- destructor of a DPC queue, which is not of this repository, closes the queue.
use nvidia_haiku.Prelude.{
  ℕ, ◌+◌, ◌-◌, ◌≡◌, ◌≢◌, ◌&&◌, ◌⊎◌, inl, inr, refl, Bool, true, false, not, if◌then◌else◌, arith,
}

-- How often the kernel driver's module is held, whether the mode setting library is loaded, and how many
-- DPC queues run.
pub record Machine : Type 0 where
  pub module_refs : ℕ
  pub kms_loaded : Bool
  pub dpc_queues : ℕ

-- `fNvidiaModule` by whether it is set, the DPC queue of `fTimerQueue` by whether it was started, and
-- `fIsKmsLoaded`.
pub record KmsDriver : Type 0 where
  pub has_module : Bool
  pub has_queue : Bool
  pub is_kms_loaded : Bool

pub record Answers : Type 0 where
  pub module_found : Bool
  pub queue_starts : Bool
  pub kms_loads : Bool

pub data Status : Type 0 where
  b_ok : Status
  b_error : Status
  b_no_init : Status

abbrev pub new_driver : KmsDriver
new_driver = record { has_module = false; has_queue = false; is_kms_loaded = false }

-- `Init`.
unfoldable pub init : Answers → KmsDriver → Machine → Status × KmsDriver × Machine
init a d m =
    if not a.module_found
    then (b_error, d, m)
    else let d' = record d { has_module = true } in
      let m' = record m { module_refs = m.module_refs + 1 } in
      if not a.queue_starts
      then (b_error, d', m')
      else let d'' = record d' { has_queue = true } in
        let m'' = record m' { dpc_queues = m'.dpc_queues + 1 } in
        if not a.kms_loads
        then (b_no_init, d'', m'')
        else (b_ok, record d'' { is_kms_loaded = true }, record m'' { kms_loaded = true })

-- The destructor of `fTimerQueue`, with that of its DPC queue: `closes` is whether the latter closes a
-- queue that runs.
abbrev pub destroy_queue : (closes : Bool) → KmsDriver → Machine → Machine
destroy_queue closes d m =
    if closes && d.has_queue then record m { dpc_queues = m.dpc_queues - 1 } else m

-- The destructor: its body, which does not clean up the queue, and then the member's.
unfoldable pub destroy : (closes : Bool) → KmsDriver → Machine → Machine
destroy closes d m =
    let m' = if d.is_kms_loaded then record m { kms_loaded = false } else m in
    let m'' = if d.has_module then record m' { module_refs = m'.module_refs - 1 } else m' in
    destroy_queue closes d m''

-- `InitDriver`, and the driver where it is up.
unfoldable pub init_driver : (closes : Bool) → Answers → Machine → Status × KmsDriver × Machine
unfolding init destroy
init_driver closes a m =
    let (status, d, m') = init a new_driver m in
    elim status [
      | b_ok ↦ (b_ok, d, m')
      | b_error ↦ (b_error, d, destroy closes d m')
      | b_no_init ↦ (b_no_init, d, destroy closes d m')
    ]

-- `UninitDriver`.
abbrev pub uninit_driver : (closes : Bool) → KmsDriver → Machine → Machine
uninit_driver = destroy

-- The machine without the driver, but for the queue where that was started and is not closed.
abbrev pub released : (closes : Bool) → Answers → Machine → Machine
released closes a m = record m {
  kms_loaded = false;
  dpc_queues = m.dpc_queues + (if not closes && a.module_found && a.queue_starts then 1 else 0);
}

-- Where the driver fails to come up, and where it comes up and is taken down, the module is held as
-- often as before and the library is not loaded. As many DPC queues run as before if the destructor of
-- such a queue closes it; if it does not, there is one more where it was started.
pub driver_balanced :
    (closes : Bool) (a : Answers) (m : Machine)
    → m.kms_loaded ≡ false
    → (((init_driver closes a m).0 ≡ b_ok)
        × (uninit_driver closes (init_driver closes a m).1 (init_driver closes a m).2
            ≡ released closes a m))
      ⊎ (((init_driver closes a m).0 ≢ b_ok) × ((init_driver closes a m).2 ≡ released closes a m))
unfolding init_driver
driver_balanced closes a m h = balanced closes a.module_found a.queue_starts a.kms_loads
  where
    balanced :
        (x f q k : Bool)
        → let b : Answers = record { module_found = f; queue_starts = q; kms_loads = k } in
          (((init_driver x b m).0 ≡ b_ok)
            × (uninit_driver x (init_driver x b m).1 (init_driver x b m).2 ≡ released x b m))
          ⊎ (((init_driver x b m).0 ≢ b_ok) × ((init_driver x b m).2 ≡ released x b m))
    balanced x false q k = inr (λ e. cc, ground (arith, h))
    balanced x true false k = inr (λ e. cc, ground (arith, h))
    balanced x true true false = inr (λ e. cc, ground (arith, h))
    balanced x true true true = inl (refl, ground (arith, h))
