-- ===== src/Modeset/TimerQueue/Immediate.antt =====
-- Timers of nvidia-modeset/TimerQueue.cpp that are scheduled without a delay: the procedure runs as
-- soon as the DPC thread takes the callback, unless the timer is freed first.
use nvidia_haiku.Prelude.{
  none≢some, ℕ, ◌<◌, ◌≡◌, refl, ◌∙◌, true, false, List, [], ◌∷◌, ◌++◌, Option, none, some,
  if◌then◌else◌, arith, if_true,
}
use nvidia_haiku.Modeset.RefPtr.{RefPtr, RefPtrs, update, kref_put, dec_ref}
use nvidia_haiku.Modeset.TimerQueue.{
  State, Timer, find, remove, store, contains, cancel, new_timer, alloc, free, do_dpc, end_dpc,
  dpc_with_ref, call_proc, clear_dpc,
}
use nvidia_haiku.Modeset.TimerQueue.System.{System, Reach}
use nvidia_haiku.Modeset.TimerQueue.Timers.{
  AreDistinct, store-AreDistinct, append-AreDistinct, holds, holders, holders-remove, holds_lent,
}
use nvidia_haiku.Modeset.TimerQueue.References.{Counted}
use nvidia_haiku.Modeset.TimerQueue.Counting.{Reach-IsCounted}
use nvidia_haiku.Modeset.TimerQueue.Created.{alloc_now, immediate, find-immediate}
use nvidia_haiku.Modeset.TimerQueue.Spares.{called_with, find-store_self, find-remove_self}

contains-cancel : (a : ℕ) (xs : List ℕ) → contains a (cancel a xs) ≡ false
unfolding contains cancel
contains-cancel a [] = refl
contains-cancel a (x ∷ xs) = ground (arith, contains-cancel a xs)

module _ (a proc data_ptr data_u32 usec : ℕ) (s : State) (fresh : find a s.timers ≡ none) where
  abbrev made : Timer
  made = new_timer a proc data_ptr data_u32 false

  abbrev ready : State
  ready = immediate a proc data_ptr data_u32 usec s fresh

  -- Its procedure runs.
  abbrev called : State
  called = record ready {
    timers = store a made ready.timers;
    queued = cancel a ready.queued;
    running = some a;
    calls = s.calls ++ called_with made data_ptr ∷ [];
  }

  do_dpc-called : do_dpc a ready ≡ some called
  unfolding do_dpc call_proc clear_dpc
  do_dpc-called = rw (find-immediate a proc data_ptr data_u32 usec s fresh, do_dpc) refl

  find-called : find a called.timers ≡ some made
  find-called =
      find-store_self a made _ _ refl (find-immediate a proc data_ptr data_u32 usec s fresh)

  ready-AreDistinct : AreDistinct s.timers → AreDistinct ready.timers
  ready-AreDistinct d = store-AreDistinct a _ _ refl (append-AreDistinct made s.timers d fresh)

  -- It is freed by its own procedure.
  abbrev freed : State
  freed = record called { timers = remove a called.timers }

  free-called : free (some a) called ≡ some freed
  unfolding free
  free-called = rw (find-called, free) refl

  end_dpc-freed : AreDistinct s.timers → end_dpc a freed ≡ none
  unfolding end_dpc
  end_dpc-freed d =
      rw
        (
          find-remove_self a called.timers (store-AreDistinct a made _ refl (ready-AreDistinct d)),
          end_dpc,
        )
        refl

  -- It is freed before its callback has run.
  abbrev cancelled : State
  cancelled = record ready { timers = remove a ready.timers; queued = cancel a ready.queued }

  free-ready : free (some a) ready ≡ some cancelled
  unfolding free
  free-ready = rw (find-immediate a proc data_ptr data_u32 usec s fresh, free) refl

-- From any reachable state, a timer that is made without a delay, at an address that is not in use,
-- is called by the DPC that takes it, once, with the procedure and the data it was made with.
pub immediate_called :
    (a proc data_ptr data_u32 : ℕ) {s : System}
    → Reach s
    → find a s.timers ≡ none
    → (t : State) × (u : State) × (alloc a proc data_ptr data_u32 0 s.state ≡ some t)
      × (t.calls ≡ s.calls)
      × (do_dpc a t ≡ some u)
      × (contains a u.queued ≡ false)
      × (u.calls
          ≡ s.calls
            ++ record { timer = a; proc = proc; data_ptr = data_ptr; data_u32 = data_u32 } ∷ [])
immediate_called a proc data_ptr data_u32 {s} r fresh =
    let n = s.state in
    (
      _,
      _,
      alloc_now a proc data_ptr data_u32 0 n fresh refl,
      refl,
      do_dpc-called a proc data_ptr data_u32 0 n fresh,
      contains-cancel a _,
      refl,
    )

-- From any reachable state, a timer that is made without a delay, at an address that is not in use,
-- and freed before the DPC thread takes it is gone from the list and from the DPC queue, with no
-- call made.
pub immediate_cancelled :
    (a proc data_ptr data_u32 : ℕ) {s : System}
    → Reach s
    → find a s.timers ≡ none
    → (t : State) × (u : State) × (alloc a proc data_ptr data_u32 0 s.state ≡ some t)
      × (free (some a) t ≡ some u)
      × (find a u.timers ≡ none)
      × (contains a u.queued ≡ false)
      × (u.calls ≡ s.calls)
immediate_cancelled a proc data_ptr data_u32 {s} r fresh =
    let n = s.state in
    (
      _,
      _,
      alloc_now a proc data_ptr data_u32 0 n fresh refl,
      free-ready a proc data_ptr data_u32 0 n fresh,
      find-remove_self a _
          (ready-AreDistinct a proc data_ptr data_u32 0 n fresh (Reach-IsCounted r).distinct),
      contains-cancel a _,
      refl,
    )

-- From any reachable state, a timer that is made without a delay, at an address that is not in use,
-- and is freed by its own procedure is touched by `DoDPC` after it is deleted.
pub callback_use_after_free :
    (a proc data_ptr data_u32 : ℕ) {s : System}
    → Reach s
    → find a s.timers ≡ none
    → (t : State) × (u : State) × (v : State) × (alloc a proc data_ptr data_u32 0 s.state ≡ some t)
      × (do_dpc a t ≡ some u)
      × (u.running ≡ some a)
      × (free (some a) u ≡ some v)
      × (end_dpc a v ≡ none)
callback_use_after_free a proc data_ptr data_u32 {s} r fresh =
    let n = s.state in
    (
      _,
      _,
      _,
      alloc_now a proc data_ptr data_u32 0 n fresh refl,
      do_dpc-called a proc data_ptr data_u32 0 n fresh,
      refl,
      free-called a proc data_ptr data_u32 0 n fresh,
      end_dpc-freed a proc data_ptr data_u32 0 n fresh (Reach-IsCounted r).distinct,
    )

-- A count that is not 0 is that of a live object.
Counted-live : (o : Option RefPtr) (n : ℕ) → Counted o n → 0 < n → (x : RefPtr) × (o ≡ some x)
Counted-live none n c h = ground (arith)
Counted-live (some x) n c h = (x, refl)

-- What the DPC of a timer with a reference does, for the pointer that the reference holds.
abbrev pub CallsOwner : Timer → System → State → Option ℕ → Type 0
CallsOwner u s t none = (find u.address t.timers ≡ none) × (t.calls ≡ s.calls)
CallsOwner u s t (some ptr) =
    (t.running ≡ some u.address) × (t.calls ≡ s.calls ++ called_with u ptr ∷ [])

lent-live :
    (a : ℕ) (s : System) (u : Timer)
    → Reach s
    → s.running ≡ none
    → find a s.timers ≡ some u
    → u.is_ref_ptr ≡ true
    → (x : RefPtr) × (s.refs u.data_ptr ≡ some x)
lent-live a s u r idle found lent =
    let one : holds u.data_ptr none u ≡ 1 =
      holds_lent u.data_ptr none u lent (λ q. none≢some q) ∙ ground arith in
    let some_held : 0 < holders u.data_ptr s.running s.timers =
      rw idle (omega (arith, one, holders-remove u.data_ptr none a s.timers u found)) in
    Counted-live (s.refs u.data_ptr) _ ((Reach-IsCounted r).counted u.data_ptr)
      (omega (arith, some_held))

dec_ref-live :
    (r : ℕ) (refs : RefPtrs) (x : RefPtr)
    → refs r ≡ some x
    → (after : RefPtrs) × (dec_ref r refs ≡ some (x.ptr, after))
unfolding dec_ref
dec_ref-live r refs x e =
    let (refcnt, freed) = kref_put x.refcnt in
    (
      update refs r (if freed then none else some (record x { refcnt = refcnt })),
      rw (e, dec_ref) refl,
    )

lent_dpc :
    (s : System) (u : Timer) (queued : List ℕ) (ptr : Option ℕ) (refs : RefPtrs)
    → AreDistinct s.timers
    → dec_ref u.data_ptr s.refs ≡ some (ptr, refs)
    → (t : State) × (dpc_with_ref u (record s.state { queued = queued }) ≡ some t)
      × CallsOwner u s t ptr
unfolding dpc_with_ref call_proc clear_dpc
lent_dpc s u queued none refs d e = (
  record s.state { timers = remove u.address s.timers; queued = queued; refs = refs },
  rw (e, dpc_with_ref) refl,
  (find-remove_self u.address s.timers d, refl),
)
lent_dpc s u queued (some ptr) refs d e = (
  call_proc u ptr (record (clear_dpc u (record s.state { queued = queued })) { refs = refs }),
  rw (e, dpc_with_ref) refl,
  (refl, refl),
)

-- In a reachable state the DPC of a scheduled timer with a reference finds the reference live. It
-- calls the procedure with the pointer that the reference holds, or it deletes the timer without a
-- call if the owner has cleared the pointer.
pub lent_called :
    (a : ℕ) {s : System} {u : Timer}
    → Reach s
    → s.running ≡ none
    → find a s.timers ≡ some u
    → u.is_ref_ptr ≡ true
    → u.dpc_scheduled ≡ true
    → (x : RefPtr) × (t : State) × (s.refs u.data_ptr ≡ some x)
      × (do_dpc a s.state ≡ some t)
      × CallsOwner u s t x.ptr
unfolding do_dpc
lent_called a {s} {u} r idle found lent on =
    let (x, live) = lent-live a s u r idle found lent in
    let (refs, dropped) = dec_ref-live u.data_ptr s.refs x live in
    let (t, done, w) =
      lent_dpc s u (cancel a s.queued) x.ptr refs (Reach-IsCounted r).distinct dropped in
    (x, t, live, rw (found, do_dpc) (if_true _ _ on ∙ if_true _ _ lent ∙ done), w)
