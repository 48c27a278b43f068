-- ===== src/Modeset/TimerQueue/Created.antt =====
-- What `NvTimerQueue::Alloc` of nvidia-modeset/TimerQueue.cpp leaves, with and without a delay.
use mathlib.Core.Option
use nvidia_haiku.Prelude.{ℕ, ◌<◌, ◌≡◌, refl, true, false, [], ◌∷◌, ◌++◌, none, some, ◌==◌, arith}
use nvidia_haiku.Modeset.TimerQueue.{
  State, Timer, find, store, add, new_timer, create, schedule, alloc,
}
use nvidia_haiku.Modeset.TimerQueue.Spares.{find-append_self, find-store_self}

module _ (a proc data_ptr data_u32 usec : ℕ) (s : State) (fresh : find a s.timers ≡ none) where
  abbrev pub made : Timer
  made = new_timer a proc data_ptr data_u32 false

  abbrev pub delayed : State
  delayed = record s {
    timers = store a (record made { timer_scheduled = true }) (s.timers ++ made ∷ []);
    armed = add a s.armed;
  }

  abbrev pub immediate : State
  immediate = record s {
    timers = store a (record made { dpc_scheduled = true }) (s.timers ++ made ∷ []);
    queued = add a s.queued;
  }

  placed : find a (s.timers ++ made ∷ []) ≡ some made
  placed = find-append_self made s.timers fresh

  pub alloc_later : 0 < usec → alloc a proc data_ptr data_u32 usec s ≡ some delayed
  unfolding alloc create schedule Option.bind
  alloc_later h = let later : (usec == 0) ≡ false = ground arith in rw (placed, schedule) (rw later)

  pub alloc_now : usec ≡ 0 → alloc a proc data_ptr data_u32 usec s ≡ some immediate
  unfolding alloc create schedule Option.bind
  alloc_now h = let now : (usec == 0) ≡ true = ground arith in rw (placed, schedule) (rw now)

  pub find-delayed : find a delayed.timers ≡ some (record made { timer_scheduled = true })
  find-delayed = find-store_self a _ (s.timers ++ made ∷ []) made refl placed

  pub find-immediate : find a immediate.timers ≡ some (record made { dpc_scheduled = true })
  find-immediate = find-store_self a _ (s.timers ++ made ∷ []) made refl placed
