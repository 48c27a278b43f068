-- ===== src/Modeset/TimerQueue/Delayed.antt =====
-- Timers of nvidia-modeset/TimerQueue.cpp that are scheduled with a delay: `TimerHook` queues the
-- callback and leaves `fDpcScheduled` unset, on which `DoDPC` and `Free` rely.
use mathlib.Core.Option
use native.Mathlib.Decide.{ℕ_discrete}
use nvidia_haiku.Prelude.{
  bind-cases, none≢some, some-injective, ℕ, ◌<◌, ◌≡◌, ◌≢◌, refl, sym, ◌∙◌, subst, Bool, true, false,
  List, [], ◌∷◌, ◌++◌, none, some, arith, Bool-cases, inl, inr,
}
use nvidia_haiku.Modeset.TimerQueue.{
  State, Timer, find, remove, store, contains, add, cancel, new_timer, create, schedule, alloc,
  alloc_with_ref_ptr, free, timer_hook, do_dpc, end_dpc,
}
use nvidia_haiku.Modeset.TimerQueue.System.{
  System, Step, owner_allocs, owner_frees, allocs, allocs_with_ref_ptr, frees, fires, runs, ends,
  Reach, next,
}
use nvidia_haiku.Modeset.TimerQueue.Timers.{
  AreDistinct, find-address, store-AreDistinct, append-AreDistinct,
}
use nvidia_haiku.Modeset.TimerQueue.Counting.{Reach-IsCounted}
use nvidia_haiku.Modeset.TimerQueue.Created.{alloc_later, delayed, find-delayed}
use nvidia_haiku.Modeset.TimerQueue.Spares.{
  calls_of, Spares, find-store_self, find-remove_self, schedule-Spares, timer_hook-Spares,
  free-Spares, create-Spares, end_dpc-Spares, do_dpc-Spares,
}

-- The timer at `a` is live, and its callback counts as not scheduled.
pub record IsDormant (a : ℕ) (s : State) : Type 0 where
  pub timer : Timer
  pub found : find a s.timers ≡ some timer
  pub unscheduled : timer.dpc_scheduled ≡ false

-- It stays so, without a call.
record Sleeps (a : ℕ) (s t : State) : Type 0 where
  dormant : IsDormant a t
  called : calls_of a t.calls ≡ calls_of a s.calls

Spares-Sleeps : (a : ℕ) (s t : State) → IsDormant a s → Spares a s t → Sleeps a s t
Spares-Sleeps a s t v w = record {
  dormant = record { timer = v.timer; found = w.same ∙ v.found; unscheduled = v.unscheduled };
  called = w.called;
}

module _ (a : ℕ) (s : State) (v : IsDormant a s) (distinct : AreDistinct s.timers) where
  timer_hook-Sleeps : {t : State} → timer_hook a s ≡ some t → Sleeps a s t
  unfolding timer_hook
  timer_hook-Sleeps e =
      subst (Sleeps a s) (some-injective (rw (v.found, timer_hook) at e))
        (elim (Bool-cases v.timer.timer_scheduled) [
          | inl on ↦ simp on (record {
            dormant = record {
              timer = record v.timer { timer_scheduled = false };
              found =
                  find-store_self a _ s.timers v.timer (find-address a s.timers v.timer v.found)
                    v.found;
              unscheduled = v.unscheduled;
            };
            called = refl;
          })
          | inr off ↦ simp off (record {
            dormant = record { timer = v.timer; found = v.found; unscheduled = v.unscheduled };
            called = refl;
          })
        ])

  do_dpc-Sleeps : {t : State} → do_dpc a s ≡ some t → Sleeps a s t
  unfolding do_dpc
  do_dpc-Sleeps e =
      subst (Sleeps a s) (some-injective (simp v.unscheduled at (rw (v.found, do_dpc) at e)))
        (record {
          dormant = record { timer = v.timer; found = v.found; unscheduled = v.unscheduled };
          called = refl;
        })

  free-gone : {t : State} → free (some a) s ≡ some t → find a t.timers ≡ none
  unfolding free
  free-gone e =
      subst (λ t. find a t.timers ≡ none) (some-injective (rw (v.found, free) at e))
        (find-remove_self a s.timers distinct)

  end_dpc-Sleeps : {t : State} → end_dpc a s ≡ some t → find a t.timers ≢ none → Sleeps a s t
  unfolding end_dpc
  end_dpc-Sleeps {t} e alive = elim (Bool-cases v.timer.is_ref_ptr) [
    | inl lent ↦ absurd (
        alive (
          subst (λ t. find a t.timers ≡ none)
            (some-injective (simp lent at (rw (v.found, end_dpc) at e)))
            (find-remove_self a s.timers distinct)))
    | inr plain ↦
        subst (Sleeps a s) (some-injective (simp plain at (rw (v.found, end_dpc) at e))) (record {
          dormant = record { timer = v.timer; found = v.found; unscheduled = v.unscheduled };
          called = refl;
        })
  ]

-- A timer that is live is at no address where a new one is made.
fresh-ne : (a b : ℕ) (s : State) → IsDormant a s → find b s.timers ≡ none → a ≢ b
fresh-ne a b s v fresh e =
    none≢some (sym (subst (λ c. find c s.timers ≡ none) (sym e) fresh) ∙ v.found)

-- Creation and schedule of another timer.
created-Sleeps :
    (a b proc data_ptr data_u32 usec : ℕ) (lent : Bool) (s : State) {t : State}
    → IsDormant a s
    → find b s.timers ≡ none
    → Option.bind (create b proc data_ptr data_u32 lent s) (schedule b usec) ≡ some t
    → Sleeps a s t
created-Sleeps a b proc data_ptr data_u32 usec lent s {t} v fresh e =
    let (m, c, d) = bind-cases (create b proc data_ptr data_u32 lent s) (schedule b usec) e in
    let other = fresh-ne a b s v fresh in
    let first = create-Spares a b s other proc data_ptr data_u32 lent c in
    let second = schedule-Spares a b m other usec d in
    Spares-Sleeps a s t v
      (record { same = second.same ∙ first.same; called = second.called ∙ first.called })

-- No step wakes it, as long as it lives.
Step-Sleeps :
    (a : ℕ) {s t : System}
    → Step s t
    → AreDistinct s.timers
    → IsDormant a s.state
    → find a t.timers ≢ none
    → Sleeps a s.state t.state
unfolding alloc alloc_with_ref_ptr
Step-Sleeps a (owner_allocs r ptr q) d v alive = record {
  dormant = record { timer = v.timer; found = v.found; unscheduled = v.unscheduled };
  called = refl;
}
Step-Sleeps a (owner_frees r o e) d v alive = record {
  dormant = record { timer = v.timer; found = v.found; unscheduled = v.unscheduled };
  called = refl;
}
Step-Sleeps a {s} (allocs b p x u usec fresh idle e) d v alive =
    created-Sleeps a b p x u usec false s.state v fresh e
Step-Sleeps a {s} (allocs_with_ref_ptr b p x u usec fresh idle o few e) d v alive =
    created-Sleeps a b p x u usec true s.state v fresh e
Step-Sleeps a {s} {t} (frees b q plain e) d v alive = elim (ℕ_discrete a b) [
  | yes h ↦ absurd (
      alive (free-gone a s.state v d (subst (λ c. free (some c) s.state ≡ some t.state) (sym h) e)))
  | no h ↦ Spares-Sleeps a s.state _ v (free-Spares a b s.state h e)
]
Step-Sleeps a {s} {t} (fires b armed e) d v alive = elim (ℕ_discrete a b) [
  | yes h ↦
      timer_hook-Sleeps a s.state v d (subst (λ c. timer_hook c s.state ≡ some t.state) (sym h) e)
  | no h ↦ Spares-Sleeps a s.state _ v (timer_hook-Spares a b s.state h e)
]
Step-Sleeps a {s} {t} (runs b queued idle e) d v alive = elim (ℕ_discrete a b) [
  | yes h ↦ do_dpc-Sleeps a s.state v d (subst (λ c. do_dpc c s.state ≡ some t.state) (sym h) e)
  | no h ↦ Spares-Sleeps a s.state _ v (do_dpc-Spares a b s.state h e)
]
Step-Sleeps a {s} {t} (ends b run e) d v alive = elim (ℕ_discrete a b) [
  | yes h ↦
      end_dpc-Sleeps a s.state v d (subst (λ c. end_dpc c s.state ≡ some t.state) (sym h) e) alive
  | no h ↦ Spares-Sleeps a s.state _ v (end_dpc-Spares a b s.state h e)
]

-- Any steps through which the timer at `a` lives.
pub data Lives (a : ℕ) (s : System) : System → Type 0 where
  here : Lives a s s
  next_ : {t u : System} → Lives a s t → Step t u → find a u.timers ≢ none → Lives a s u

Lives-Sleeps :
    (a : ℕ) {s t : System}
    → Reach s
    → IsDormant a s.state
    → Lives a s t
    → Reach t × Sleeps a s.state t.state
Lives-Sleeps a r v here = (
  r,
  record {
    dormant = record { timer = v.timer; found = v.found; unscheduled = v.unscheduled };
    called = refl;
  },
)
Lives-Sleeps a r v (next_ l st alive) =
    let (r', w) = Lives-Sleeps a r v l in
    let w' = Step-Sleeps a st (Reach-IsCounted r').distinct w.dormant alive in
    (next r' st, record { dormant = w'.dormant; called = w'.called ∙ w.called })

alloc-IsDormant :
    (a proc data_ptr data_u32 usec : ℕ) (s : State) {t : State}
    → 0 < usec
    → find a s.timers ≡ none
    → alloc a proc data_ptr data_u32 usec s ≡ some t
    → IsDormant a t × (calls_of a t.calls ≡ calls_of a s.calls)
alloc-IsDormant a proc data_ptr data_u32 usec s {t} later fresh e =
    subst (λ t. IsDormant a t × (calls_of a t.calls ≡ calls_of a s.calls))
      (some-injective (sym (alloc_later a proc data_ptr data_u32 usec s fresh later) ∙ e))
      (
        record {
          timer = _;
          found = find-delayed a proc data_ptr data_u32 usec s fresh;
          unscheduled = refl;
        },
        refl,
      )

-- The procedure of a timer that is made with a delay is never called: through any steps during
-- which the timer lives, no call is added for it.
pub delayed_never_called :
    (a proc data_ptr data_u32 usec : ℕ) {s : System} {t : State} {u : System}
    → Reach s
    → 0 < usec
    → (fresh : find a s.timers ≡ none) → (idle : s.running ≢ some a)
    → (made : alloc a proc data_ptr data_u32 usec s.state ≡ some t)
    → Lives a (record s { state = t }) u
    → calls_of a u.calls ≡ calls_of a s.calls
delayed_never_called a proc data_ptr data_u32 usec {s} {t} r later fresh idle made l =
    let (v, same) = alloc-IsDormant a proc data_ptr data_u32 usec s.state later fresh made in
    let start = next r (allocs a proc data_ptr data_u32 usec fresh idle made) in
    (Lives-Sleeps a start v l).1.called ∙ same

contains-add : (a : ℕ) (xs : List ℕ) → contains a (add a xs) ≡ true
unfolding add contains
contains-add a xs = elim (Bool-cases (contains a xs)) [
  | inl q ↦ rw (q, add) q
  | inr q ↦ rw (q, add) (contains-last a xs)
]
  where
    contains-last : (a : ℕ) (xs : List ℕ) → contains a (xs ++ a ∷ []) ≡ true
    contains-last a [] = ground arith
    contains-last a (x ∷ xs) = ground (arith, contains-last a xs)

-- A delayed timer after it has fired, and then without it.
module _ (a proc data_ptr data_u32 usec : ℕ) (s : State) (fresh : find a s.timers ≡ none) where
  abbrev idle_timer : Timer
  idle_timer = new_timer a proc data_ptr data_u32 false

  abbrev fired : State
  fired =
      let d = delayed a proc data_ptr data_u32 usec s fresh in
      record d {
        timers = store a idle_timer d.timers;
        armed = cancel a d.armed;
        queued = add a d.queued;
      }

  abbrev freed : State
  freed = record fired { timers = remove a fired.timers }

  timer_hook-fired : timer_hook a (delayed a proc data_ptr data_u32 usec s fresh) ≡ some fired
  unfolding timer_hook
  timer_hook-fired = rw (find-delayed a proc data_ptr data_u32 usec s fresh, timer_hook) refl

  find-fired : find a fired.timers ≡ some idle_timer
  find-fired =
      find-store_self a idle_timer _ _ refl (find-delayed a proc data_ptr data_u32 usec s fresh)

  free-freed : free (some a) fired ≡ some freed
  unfolding free
  free-freed = rw (find-fired, free) refl

  fired-AreDistinct : AreDistinct s.timers → AreDistinct fired.timers
  fired-AreDistinct d =
      store-AreDistinct a idle_timer _ refl
        (store-AreDistinct a _ _ refl (append-AreDistinct idle_timer s.timers d fresh))

  do_dpc-freed : AreDistinct s.timers → do_dpc a freed ≡ none
  unfolding do_dpc
  do_dpc-freed d = rw (find-remove_self a fired.timers (fired-AreDistinct d), do_dpc) refl

-- A delayed timer that has fired and is then freed leaves its callback in the DPC queue, and the DPC
-- thread that takes it touches the deleted timer: from any reachable state, where the timer is made
-- at an address that is not in use.
pub delayed_use_after_free :
    (a proc data_ptr data_u32 usec : ℕ) {s : System}
    → Reach s
    → 0 < usec
    → find a s.timers ≡ none
    → (t : State) × (u : State) × (v : State) × (alloc a proc data_ptr data_u32 usec s.state
        ≡ some t)
      × (timer_hook a t ≡ some u)
      × (free (some a) u ≡ some v)
      × (contains a v.queued ≡ true)
      × (do_dpc a v ≡ none)
delayed_use_after_free a proc data_ptr data_u32 usec {s} r later fresh =
    let n = s.state in
    (
      _,
      _,
      _,
      alloc_later a proc data_ptr data_u32 usec n fresh later,
      timer_hook-fired a proc data_ptr data_u32 usec n fresh,
      free-freed a proc data_ptr data_u32 usec n fresh,
      contains-add a n.queued,
      do_dpc-freed a proc data_ptr data_u32 usec n fresh (Reach-IsCounted r).distinct,
    )
