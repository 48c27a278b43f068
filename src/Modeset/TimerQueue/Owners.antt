-- ===== src/Modeset/TimerQueue/Owners.antt =====
-- The owners' calls on references keep the counts: nvkms-haiku.cpp as nvidia-modeset/TimerQueue.cpp uses it.
use mathlib.Core.Option
use nvidia_haiku.Prelude.{
  ℕ, ◌+◌, ◌-◌, ◌≡◌, refl, sym, ap, ◌∙◌, subst, Bool, true, false, Option, none, some, ◌==◌,
  if◌then◌else◌, arith, Option-cases, Bool-cases, none≢some, some-injective, if_true, if_false, inl,
  inr,
}
use nvidia_haiku.Modeset.RefPtr.{
  RefPtr, RefPtrs, kref_init, update, alloc_ref_ptr, dec_ref, free_ref_ptr,
}
use nvidia_haiku.Modeset.TimerQueue.{State}
use nvidia_haiku.Modeset.TimerQueue.System.{own}
use nvidia_haiku.Modeset.TimerQueue.Timers.{holders}
use nvidia_haiku.Modeset.TimerQueue.References.{Counted, bit, update-Counted, dec_ref-Counted}
use nvidia_haiku.Modeset.TimerQueue.Kept.{IsCounted}

module _ (owners : ℕ → Bool) (s : State) (v : IsCounted owners s) where
  held : ℕ → ℕ
  held r = bit (owners r) + holders r s.running s.timers

  pub owner_allocs-IsCounted :
      (r : ℕ) (ptr : Option ℕ)
      → s.refs r ≡ none
      → IsCounted (own owners r true) (record s { refs = alloc_ref_ptr r ptr s.refs })
  unfolding alloc_ref_ptr kref_init held
  owner_allocs-IsCounted r ptr q = record {
    distinct = v.distinct;
    counted = λ j.
        subst (Counted (update s.refs r (some (record { refcnt = 1; ptr = ptr })) j)) (one_more j) (
          update-Counted s.refs held r (some (record { refcnt = 1; ptr = ptr })) 1 v.counted
            (refl, omega arith, omega arith) j);
  }
    where
      unused : held r ≡ 0
      unused = subst (λ x. Counted x (held r)) q (v.counted r)

      one_more :
          (j : ℕ)
          → (if j == r then 1 else held j)
            ≡ bit (own owners r true j) + holders j s.running s.timers
      one_more j = elim (Bool-cases (j == r)) [
        | inl e ↦
            let same : r ≡ j = ground (arith, e) in
            let none_here : held j ≡ 0 = ap held (sym same) ∙ unused in
            let owned : bit (own owners r true j) ≡ 1 = ap bit (if_true _ _ e) in
            if_true _ _ e ∙ omega (arith, none_here, owned)
        | inr e ↦
            let as_before : bit (own owners r true j) ≡ bit (owners j) = ap bit (if_false _ _ e) in
            if_false _ _ e ∙ omega (arith, as_before)
      ]

  pub owner_frees-IsCounted :
      (r : ℕ) {refs : RefPtrs}
      → owners r ≡ true
      → free_ref_ptr r s.refs ≡ some refs
      → IsCounted (own owners r false) (record s { refs = refs })
  unfolding free_ref_ptr held
  owner_frees-IsCounted r {refs} o e = elim (Option-cases (s.refs r)) [
    | inl q ↦ absurd (none≢some (rw (q, free_ref_ptr) at e))
    | inr (x, q) ↦
        go x q (dec_ref r (update s.refs r (some (record x { ptr = none })))) refl
          (rw (q, free_ref_ptr) at e)
  ]
    where
      one_less :
          (j : ℕ)
          → (if j == r then held r - 1 else held j)
            ≡ bit (own owners r false j) + holders j s.running s.timers
      one_less j = elim (Bool-cases (j == r)) [
        | inl e ↦
            let same : r ≡ j = ground (arith, e) in
            let owned : bit (owners j) ≡ 1 = ap (λ k. bit (owners k)) (sym same) ∙ ap bit o in
            let given : bit (own owners r false j) ≡ 0 = ap bit (if_true _ _ e) in
            if_true _ _ e ∙ ap (λ k. held k - 1) same ∙ omega (arith, owned, given)
        | inr e ↦
            let as_before : bit (own owners r false j) ≡ bit (owners j) = ap bit (if_false _ _ e) in
            if_false _ _ e ∙ omega (arith, as_before)
      ]

      unchanged : (j : ℕ) → (if j == r then held r else held j) ≡ held j
      unchanged j = elim (Bool-cases (j == r)) [
        | inl e ↦ let same : r ≡ j = ground (arith, e) in if_true _ _ e ∙ ap held same
        | inr e ↦ if_false _ _ e
      ]

      go :
          (x : RefPtr)
          → s.refs r ≡ some x
          → (y : Option (Option ℕ × RefPtrs))
          → dec_ref r (update s.refs r (some (record x { ptr = none }))) ≡ y
          → Option.map (λ z. z.1) y ≡ some refs
          → IsCounted (own owners r false) (record s { refs = refs })
      go x q none d f = absurd (none≢some f)
      go x q (some (ptr, after)) d f =
          let cleared = update s.refs r (some (record x { ptr = none })) in
          let had : Counted (some x) (held r) = subst (λ y. Counted y (held r)) q (v.counted r) in
          let counted = λ (j : ℕ). subst (Counted (cleared j)) (unchanged j) (
            update-Counted s.refs held r (some (record x { ptr = none })) (held r) v.counted had
              j) in
          subst (λ rs. IsCounted (own owners r false) (record s { refs = rs })) (some-injective f)
            (record {
              distinct = v.distinct;
              counted = λ j.
                  subst (Counted (after j)) (one_less j)
                    ((dec_ref-Counted r cleared held counted d).1 j);
            })
