-- ===== src/Modeset/TimerQueue/System.antt =====
-- The clients of nvidia-modeset/TimerQueue.cpp, the interrupt that fires its timers, and the DPC
-- thread, in any order.
use nvidia_haiku.Prelude.{
  ℕ, ◌+◌, ◌^◌, ◌<◌, ◌≡◌, ◌≢◌, Bool, true, false, [], Option, none, some, ◌==◌, if◌then◌else◌,
  length,
}
use nvidia_haiku.Modeset.RefPtr.{RefPtrs, alloc_ref_ptr, free_ref_ptr}
use nvidia_haiku.Modeset.TimerQueue.{
  State, Timer, find, contains, alloc, alloc_with_ref_ptr, free, timer_hook, do_dpc, end_dpc,
}

-- `owners` are the references whose owner has not called `nvkms_free_ref_ptr` yet.
pub record System : Type 0 where
  pub state : State
  pub open state use *
  pub owners : ℕ → Bool

abbrev pub own : (ℕ → Bool) → ℕ → Bool → ℕ → Bool
own owners r b j = if j == r then b else owners j

pub data Step (s : System) : System → Type 0 where
  owner_allocs :
      (r : ℕ) (ptr : Option ℕ)
      → s.refs r ≡ none
      → Step s (record {
        state = record s.state { refs = alloc_ref_ptr r ptr s.refs };
        owners = own s.owners r true;
      })
  owner_frees :
      (r : ℕ) {refs : RefPtrs}
      → s.owners r ≡ true
      → free_ref_ptr r s.refs ≡ some refs
      → Step s (record { state = record s.state { refs = refs }; owners = own s.owners r false })
  allocs :
      (address proc data_ptr data_u32 usec : ℕ) {t : State}
      → find address s.timers ≡ none
      → s.running ≢ some address
      → alloc address proc data_ptr data_u32 usec s.state ≡ some t
      → Step s (record s { state = t })
  -- The owner lends a reference to a timer; memory bounds the number of timers.
  allocs_with_ref_ptr :
      (address proc ref_ptr data_u32 usec : ℕ) {t : State}
      → find address s.timers ≡ none
      → s.running ≢ some address
      → s.owners ref_ptr ≡ true
      → length s.timers + 2 < 2 ^ 32
      → alloc_with_ref_ptr address proc ref_ptr data_u32 usec s.state ≡ some t
      → Step s (record s { state = t })
  -- Only `Alloc` gives a handle away.
  frees :
      (address : ℕ) {u : Timer} {t : State}
      → find address s.timers ≡ some u
      → u.is_ref_ptr ≡ false
      → free (some address) s.state ≡ some t
      → Step s (record s { state = t })
  fires :
      (address : ℕ) {t : State}
      → contains address s.armed ≡ true
      → timer_hook address s.state ≡ some t
      → Step s (record s { state = t })
  runs :
      (address : ℕ) {t : State}
      → contains address s.queued ≡ true
      → s.running ≡ none
      → do_dpc address s.state ≡ some t
      → Step s (record s { state = t })
  ends :
      (address : ℕ) {t : State}
      → s.running ≡ some address
      → end_dpc address s.state ≡ some t
      → Step s (record s { state = t })

abbrev pub initial_state : State
initial_state = record {
  timers = [];
  armed = [];
  queued = [];
  running = none;
  refs = λ _. none;
  calls = [];
}

pub data Reach : System → Type 0 where
  initial : Reach (record { state = initial_state; owners = λ _. false })
  next : {s t : System} → Reach s → Step s t → Reach t
