-- ===== src/Handles/Select/Lost.antt =====
-- What `Select`, `Deselect` and the posts of events in nvidia_gsp/nvidia/BaseDevice.cpp and os-haiku.cpp
-- do for the waiters of a file, over any order of them.
use nvidia_haiku.Prelude.{
  ℕ, zero, suc, arith, if_false, ◌≤◌, subst, ◌+◌, ◌<◌, ◌≡◌, ◌⊎◌, refl, sym, ap, ◌∙◌, Bool, true,
  false, List, [], ◌∷◌, ◌==◌, Bool-cases, if_true, inl, inr,
}
use nvidia_haiku.Handles.Select.{
  Waiters, Status, b_ok, b_bad_value, b_no_memory, b_entry_not_found, remove, notify_all,
  set_dataless_event_pending, notify_select_pool, select, deselect, System, Event, post,
  post_begins, post_ends, selects, deselects, Run, here, next, has_select, has_deselect, ends,
  count,
}

count-notify_all :
    (x : ℕ) (xs done : List ℕ) → count x (notify_all xs done) ≡ count x xs + count x done
count-notify_all x [] done = omega arith
count-notify_all x (y ∷ xs) done = omega (arith, count-notify_all x xs done)

count-remove : (x y : ℕ) (xs : List ℕ) → (y == x) ≡ false → count x (remove y xs) ≡ count x xs
count-remove x y [] h = refl
count-remove x y (z ∷ xs) h = let ih = count-remove x y xs h in ground (arith, h, ih)

abbrev Grown : ℕ → Waiters → Waiters → Type 0
Grown x w v = (count x w.pool ≤ count x v.pool) × (count x w.notified ≤ count x v.notified)

-- What a call of `Select` and one of `Deselect` that succeed change.
select_changes :
    (x : ℕ) (is_read memory : Bool) (sync : ℕ) (w v : Waiters)
    → select is_read memory sync w ≡ (b_ok, v)
    → Grown x w v
unfolding select
select_changes x false memory sync w v e = absurd (bad≢ok (ap (λ (r : Status × Waiters). r.0) e))
  where
    bad≢ok : b_bad_value ≡ b_ok → ⊥
    bad≢ok f = cc
select_changes x true false sync w v e = absurd (none≢ok (ap (λ (r : Status × Waiters). r.0) e))
  where
    none≢ok : b_no_memory ≡ b_ok → ⊥
    none≢ok f = cc
select_changes x true true sync w v e = elim (Bool-cases w.pending) [
  | inl p ↦
      subst (Grown x w) (ap (λ (r : Status × Waiters). r.1) (sym (if_true _ _ p) ∙ e))
        (omega arith, omega arith)
  | inr p ↦
      subst (Grown x w) (ap (λ (r : Status × Waiters). r.1) (sym (if_false _ _ p) ∙ e))
        (omega arith, omega arith)
]

deselect_changes :
    (is_read found : Bool) (sync : ℕ) (w v : Waiters)
    → deselect is_read found sync w ≡ (b_ok, v)
    → v ≡ record w { pool = remove sync w.pool }
unfolding deselect
deselect_changes false found sync w v e = absurd (bad≢ok (ap (λ (r : Status × Waiters). r.0) e))
  where
    bad≢ok : b_bad_value ≡ b_ok → ⊥
    bad≢ok f = cc
deselect_changes true false sync w v e = absurd (missing≢ok (ap (λ (r : Status × Waiters). r.0) e))
  where
    missing≢ok : b_entry_not_found ≡ b_ok → ⊥
    missing≢ok f = cc
deselect_changes true true sync w v e = sym (ap (λ (r : Status × Waiters). r.1) e)

zero_or_more : (n : ℕ) → (n ≡ 0) ⊎ (0 < n)
zero_or_more zero = inl refl
zero_or_more (suc n) = inr (omega arith)

-- What a run does for a waiter that it does not deselect: it stays in the pool and each end of a post
-- notifies it.
told :
    {s t : System} {es : List Event} (x : ℕ)
    → Run s es t
    → 0 < count x s.waiters.pool
    → has_deselect x es ≡ false
    → (0 < count x t.waiters.pool)
      × (count x s.waiters.notified + ends es ≤ count x t.waiters.notified)
unfolding set_dataless_event_pending notify_select_pool
told x here waits kept = (waits, omega arith)
told x (next r (post_begins true)) waits kept = told x r waits kept
told x (next r (post_begins false)) waits kept = told x r waits kept
told x (next {t = t} r (post_ends h)) waits kept =
    let ih = told x r waits kept in
    (ih.0, omega (arith, ih.0, ih.1, count-notify_all x t.waiters.pool t.waiters.notified))
told x (next {t = t} r (selects is_read memory sync {w} e)) waits kept =
    let ih = told x r waits kept in
    let grown = select_changes x is_read memory sync t.waiters w e in
    (omega (arith, ih.0, grown.0), omega (arith, ih.1, grown.1))
told x (next {es} {t = t} r (deselects is_read found sync {w} e)) waits kept =
    elim (Bool-cases (sync == x)) [
      | inl p ↦ absurd (true≢false (sym (if_true _ _ p) ∙ kept))
      | inr p ↦
          let ih = told x r waits (sym (if_false _ _ p) ∙ kept) in
          let changed = deselect_changes is_read found sync t.waiters w e in
          let stays : count x w.pool ≡ count x t.waiters.pool =
            ap (λ (v : Waiters). count x v.pool) changed ∙ count-remove x sync t.waiters.pool p in
          let heard : count x w.notified ≡ count x t.waiters.notified =
            ap (λ (v : Waiters). count x v.notified) changed in
          (omega (arith, ih.0, stays), omega (arith, ih.1, heard))
    ]
  where
    true≢false : true ≡ false → ⊥
    true≢false f = cc

pending_kept :
    {s t : System} {es : List Event}
    → Run s es t
    → s.waiters.pending ≡ true
    → has_select es ≡ false
    → t.waiters.pending ≡ true
unfolding set_dataless_event_pending notify_select_pool
pending_kept here p free = p
pending_kept (next r (post_begins true)) p free = pending_kept r p free
pending_kept (next r (post_begins false)) p free = refl
pending_kept (next r (post_ends h)) p free = pending_kept r p free
pending_kept (next r (selects is_read memory sync e)) p free = absurd (true≢false free)
  where
    true≢false : true ≡ false → ⊥
    true≢false f = cc
pending_kept (next {t = t} r (deselects is_read found sync {w} e)) p free =
    ap (λ (v : Waiters). v.pending) (deselect_changes is_read found sync t.waiters w e)
    ∙ pending_kept r p free

-- No event without data is lost. After a post of one begins on a file, however posts of either kind,
-- selects and deselects follow: if no call of `Select` has come since, one for reading that there is
-- memory for notifies its waiter at once and takes the event; and a waiter that was in the pool at the
-- post, and is not deselected since, is notified at least once for each post that has ended since.
pub no_event_lost :
    (s : System) {t : System} {es : List Event} (x : ℕ)
    → Run (post false s) es t
    → ((has_select es ≡ true)
        ⊎ (select true true x t.waiters ≡ (
          b_ok,
          record { pool = x ∷ t.waiters.pool; pending = false; notified = x ∷ t.waiters.notified },
        )))
      × ((count x s.waiters.pool ≡ 0)
          ⊎ (has_deselect x es ≡ true)
          ⊎ (count x s.waiters.notified + ends es ≤ count x t.waiters.notified))
unfolding select set_dataless_event_pending
no_event_lost s {t} {es} x r = (
  elim (Bool-cases (has_select es)) [
    | inl e ↦ inl e
    | inr free ↦ inr (if_true _ _ (pending_kept r refl free))
  ],
  elim (Bool-cases (has_deselect x es)) [
    | inl e ↦ inr (inl e)
    | inr kept ↦ elim (zero_or_more (count x s.waiters.pool)) [
      | inl e ↦ inl e
      | inr waits ↦ inr (inr (told x r waits kept).1)
    ]
  ],
)
