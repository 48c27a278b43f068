-- ===== src/Modeset/TimerQueue/Examples.antt =====
-- Runs of nvidia-modeset/TimerQueue.cpp: a timer with a delay beside one that borrows a reference.
use nvidia_haiku.Prelude.{
  none≢some, ◌==◌, if◌then◌else◌, ◌≡◌, refl, sym, true, false, [], ◌∷◌, none, some, arith,
}
use nvidia_haiku.Modeset.RefPtr.{update, kref_init, kref_get, alloc_ref_ptr, inc_ref}
use nvidia_haiku.Modeset.TimerQueue.{
  State, Timer, find, store, contains, add, cancel, new_timer, create, schedule, alloc,
  alloc_with_ref_ptr, free, timer_hook, do_dpc, end_dpc,
}
use nvidia_haiku.Modeset.TimerQueue.System.{
  fires, System, owner_allocs, allocs_with_ref_ptr, Reach, initial, next, initial_state,
}
use nvidia_haiku.Modeset.TimerQueue.Counting.{Reach-IsCounted}
use nvidia_haiku.Modeset.TimerQueue.Kept.{IsCounted}
use nvidia_haiku.Modeset.TimerQueue.Delayed.{
  here, next_, delayed_never_called, delayed_use_after_free,
}
use nvidia_haiku.Modeset.TimerQueue.Spares.{calls_of}
use nvidia_haiku.Modeset.TimerQueue.Immediate.{immediate_called, callback_use_after_free}

abbrev idle : System
idle = record { state = initial_state; owners = λ _. false }

abbrev owned : System
unfolding alloc_ref_ptr
owned = record {
  state = record initial_state { refs = alloc_ref_ptr 7 (some 1000) (λ _. none) };
  owners = λ j. if j == 7 then true else false;
}

-- A reference is allocated, and lent to a timer without a delay.
abbrev lending : System
unfolding alloc_ref_ptr inc_ref kref_get
lending = record {
  state = record owned.state {
    timers = lent_timer ∷ [];
    queued = 20 ∷ [];
    refs = update owned.refs 7 (some (record { refcnt = 2; ptr = some 1000 }));
  };
  owners = owned.owners;
}
  where
    lent_timer : Timer
    lent_timer = record (new_timer 20 3 7 5 true) { dpc_scheduled = true }

owned-Reach : Reach owned
unfolding owned
owned-Reach = next initial (owner_allocs 7 (some 1000) refl)

lending-Reach : Reach lending
unfolding lending owned alloc_with_ref_ptr create schedule inc_ref alloc_ref_ptr store add contains
    find kref_get kref_init mathlib.Core.Option.bind
lending-Reach =
    next owned-Reach
      (allocs_with_ref_ptr 20 3 7 5 0 refl (λ q. none≢some q) refl (omega arith) refl)

Reach-IsCounted_example : IsCounted lending.owners lending.state
Reach-IsCounted_example = Reach-IsCounted lending-Reach

immediate_called_example :
    (t : State) × (u : State) × (alloc 30 4 50 6 0 lending.state ≡ some t)
    × (t.calls ≡ [])
    × (do_dpc 30 t ≡ some u)
    × (contains 30 u.queued ≡ false)
    × (u.calls ≡ record { timer = 30; proc = 4; data_ptr = 50; data_u32 = 6 } ∷ [])
unfolding lending find
immediate_called_example = immediate_called 30 4 50 6 lending-Reach refl

callback_use_after_free_example :
    (t : State) × (u : State) × (v : State) × (alloc 30 4 50 6 0 lending.state ≡ some t)
    × (do_dpc 30 t ≡ some u)
    × (u.running ≡ some 30)
    × (free (some 30) u ≡ some v)
    × (end_dpc 30 v ≡ none)
unfolding lending find
callback_use_after_free_example = callback_use_after_free 30 4 50 6 lending-Reach refl

delayed_use_after_free_example :
    (t : State) × (u : State) × (v : State) × (alloc 30 4 50 6 250 lending.state ≡ some t)
    × (timer_hook 30 t ≡ some u)
    × (free (some 30) u ≡ some v)
    × (contains 30 v.queued ≡ true)
    × (do_dpc 30 v ≡ none)
unfolding lending find
delayed_use_after_free_example =
    delayed_use_after_free 30 4 50 6 250 lending-Reach (omega arith) refl

-- A timer with a delay, which fires.
abbrev waiting : System
waiting = record {
  state = record initial_state {
    timers = record (new_timer 30 4 50 6 false) { timer_scheduled = true } ∷ [];
    armed = 30 ∷ [];
  };
  owners = idle.owners;
}

abbrev hooked : System
hooked = record waiting {
  state = record waiting.state {
    timers = new_timer 30 4 50 6 false ∷ [];
    armed = [];
    queued = 30 ∷ [];
  };
}

delayed_never_called_example : calls_of 30 hooked.calls ≡ calls_of 30 idle.calls
unfolding alloc create schedule find store add contains timer_hook cancel mathlib.Core.Option.bind
delayed_never_called_example =
    delayed_never_called 30 4 50 6 250 {s = idle} {t = waiting.state} {u = hooked} initial
      (omega arith) refl (λ q. none≢some q) refl
      (next_ here (fires 30 refl refl) (λ q. none≢some (sym q)))
