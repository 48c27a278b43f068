-- ===== src/Modeset/TimerQueue/References.antt =====
-- The count of every `nvkms_ref_ptr` that timers of nvidia-modeset/TimerQueue.cpp share.
use nvidia_haiku.Prelude.{
  none≢some, some-injective, ℕ, ◌+◌, ◌-◌, ◌^◌, ◌<◌, ◌≡◌, sym, ap, ◌∙◌, subst, Bool, true, false,
  List, [], ◌∷◌, ◌++◌, Option, none, some, ◌==◌, if◌then◌else◌, arith, Option-cases, Bool-cases,
  inl, inr,
}
use nvidia_haiku.Modeset.RefPtr.{RefPtr, RefPtrs, kref_get, kref_put, update, inc_ref, dec_ref}
use nvidia_haiku.Modeset.TimerQueue.{Timer, find, remove, store}
use nvidia_haiku.Modeset.TimerQueue.Timers.{
  AreDistinct, holds, holders, find-address, remove-AreDistinct, store-AreDistinct,
  append-AreDistinct, holders-append, holders-store, holders-remove, holders_running,
}

-- A live object's count is `n`; a freed object has no reference left.
abbrev pub Counted : Option RefPtr → ℕ → Type 0
Counted none n = n ≡ 0
Counted (some x) n = (x.refcnt ≡ n) × (0 < n) × (n < 2 ^ 32)

abbrev pub bit : Bool → ℕ
bit true = 1
bit false = 0

pub record Inv (timers : List Timer) (running : Option ℕ) (refs : RefPtrs) (owners : ℕ → Bool)
    : Type 0 where
  pub distinct : AreDistinct timers
  -- The owner, if it still holds on, and each timer whose procedure has not been called yet.
  pub counted : (r : ℕ) → Counted (refs r) (bit (owners r) + holders r running timers)

module _ {refs : RefPtrs} {owners : ℕ → Bool} where
  pub recount :
      (ts us : List Timer) (g h : Option ℕ)
      → AreDistinct us
      → ((r : ℕ) → holders r h us ≡ holders r g ts)
      → Inv ts g refs owners
      → Inv us h refs owners
  recount ts us g h d same v = record {
    distinct = d;
    counted = λ r. subst (λ n. Counted (refs r) (bit (owners r) + n)) (sym (same r)) (v.counted r);
  }

  pub Inv-store :
      (g : Option ℕ) (a : ℕ) (t u : Timer) (ts : List Timer)
      → find a ts ≡ some t
      → u.address ≡ t.address
      → ((r : ℕ) → holds r g u ≡ holds r g t)
      → Inv ts g refs owners
      → Inv (store a u ts) g refs owners
  Inv-store g a t u ts e w same v =
      recount ts (store a u ts) g g
        (store-AreDistinct a u ts (w ∙ find-address a ts t e) v.distinct)
        (λ r. omega (arith, holders-store r g a u ts t e, same r)) v

  -- A timer without a reference.
  pub Inv-append :
      (g : Option ℕ) (t : Timer) (ts : List Timer)
      → find t.address ts ≡ none
      → ((r : ℕ) → holds r g t ≡ 0)
      → Inv ts g refs owners
      → Inv (ts ++ t ∷ []) g refs owners
  Inv-append g t ts e zero_ v =
      recount ts (ts ++ t ∷ []) g g (append-AreDistinct t ts v.distinct e)
        (λ r. omega (arith, holders-append r g t ts, zero_ r)) v

  pub Inv-remove :
      (g : Option ℕ) (a : ℕ) (t : Timer) (ts : List Timer)
      → find a ts ≡ some t
      → ((r : ℕ) → holds r g t ≡ 0)
      → Inv ts g refs owners
      → Inv (remove a ts) g refs owners
  Inv-remove g a t ts e zero_ v =
      recount ts (remove a ts) g g (remove-AreDistinct a ts v.distinct)
        (λ r. omega (arith, holders-remove r g a ts t e, zero_ r)) v

  -- The procedure of a timer without a reference begins, and ends.
  pub Inv-begins :
      (a : ℕ) (t : Timer) (ts : List Timer)
      → find a ts ≡ some t
      → ((r : ℕ) → holds r none t ≡ 0)
      → Inv ts none refs owners
      → Inv ts (some a) refs owners
  Inv-begins a t ts e zero_ v =
      recount ts ts none (some a) v.distinct
        (λ r. omega (arith, holders_running r a ts t v.distinct e, zero_ r)) v

  pub Inv-ends :
      (a : ℕ) (t : Timer) (ts : List Timer)
      → find a ts ≡ some t
      → ((r : ℕ) → holds r none t ≡ 0)
      → Inv ts (some a) refs owners
      → Inv ts none refs owners
  Inv-ends a t ts e zero_ v =
      recount ts ts (some a) none v.distinct
        (λ r. omega (arith, holders_running r a ts t v.distinct e, zero_ r)) v

  -- The timer whose procedure has run is deleted; its reference went when it began.
  pub Inv-ends_removed :
      (a : ℕ) (t : Timer) (ts : List Timer)
      → find a ts ≡ some t
      → Inv ts (some a) refs owners
      → Inv (remove a ts) none refs owners
  Inv-ends_removed a t ts e v =
      recount ts (remove a ts) (some a) none (remove-AreDistinct a ts v.distinct)
        (λ r. omega (arith, holders_running r a ts t v.distinct e, holders-remove r none a ts t e))
        v

pub update-Counted :
    (refs : RefPtrs) (n : ℕ → ℕ) (r : ℕ) (x : Option RefPtr) (k : ℕ)
    → ((j : ℕ) → Counted (refs j) (n j))
    → Counted x k
    → (j : ℕ) → Counted (update refs r x j) (if j == r then k else n j)
update-Counted refs n r x k c h j = elim (Bool-cases (j == r)) [
  | inl q ↦ rw q h
  | inr q ↦ rw q (c j)
]

kref_get-lt : (c : ℕ) → c + 1 < 2 ^ 32 → kref_get c ≡ c + 1
unfolding kref_get
kref_get-lt c h = omega arith

-- One reference more at `r`.
pub inc_ref-Counted :
    (r : ℕ) (refs : RefPtrs) (n : ℕ → ℕ) {refs' : RefPtrs}
    → ((j : ℕ) → Counted (refs j) (n j))
    → n r + 1 < 2 ^ 32
    → inc_ref r refs ≡ some refs'
    → (j : ℕ) → Counted (refs' j) (if j == r then n r + 1 else n j)
unfolding inc_ref
inc_ref-Counted r refs n c h e = elim (Option-cases (refs r)) [
  | inl q ↦ absurd (none≢some (rw (q, inc_ref) at e))
  | inr (x, q) ↦
      let had = subst (λ y. Counted y (n r)) q (c r) in
      let result = some-injective (rw (q, inc_ref) at e) in
      subst (λ f. (j : ℕ) → Counted (f j) (if j == r then n r + 1 else n j)) result
        (update-Counted refs n r (some (record x { refcnt = kref_get x.refcnt })) (n r + 1) c
          (omega (arith, kref_get-lt x.refcnt)))
]

-- What `nvkms_dec_ref` leaves of an object with a count.
put-Counted :
    (x : RefPtr) (n : ℕ)
    → Counted (some x) n
    → Counted
        (if (kref_put x.refcnt).1 then none else some (record x { refcnt = (kref_put x.refcnt).0 }))
        (n - 1)
unfolding kref_put
put-Counted x n c = elim (Bool-cases (x.refcnt == 1)) [
  | inl q ↦ rw q (ground arith)
  | inr q ↦ rw q (ground arith, ground arith, ground arith)
]

-- One reference less at `r`; the pointer is that of the live object.
pub dec_ref-Counted :
    (r : ℕ) (refs : RefPtrs) (n : ℕ → ℕ) {refs' : RefPtrs} {ptr : Option ℕ}
    → ((j : ℕ) → Counted (refs j) (n j))
    → dec_ref r refs ≡ some (ptr, refs')
    → (0 < n r) × ((j : ℕ) → Counted (refs' j) (if j == r then n r - 1 else n j))
unfolding dec_ref
dec_ref-Counted r refs n c e = elim (Option-cases (refs r)) [
  | inl q ↦ absurd (none≢some (rw (q, dec_ref) at e))
  | inr (x, q) ↦
      let had = subst (λ y. Counted y (n r)) q (c r) in
      let result = ap (λ (y : Option ℕ × RefPtrs). y.1) (some-injective (rw (q, dec_ref) at e)) in
      (
        had.1,
        subst (λ f. (j : ℕ) → Counted (f j) (if j == r then n r - 1 else n j)) result
            (update-Counted refs n r _ (n r - 1) c (put-Counted x (n r) had)),
      )
]
