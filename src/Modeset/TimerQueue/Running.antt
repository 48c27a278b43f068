-- ===== src/Modeset/TimerQueue/Running.antt =====
-- `DoDPC` of nvidia-modeset/TimerQueue.cpp keeps the counts: the timer that begins to run gives up its
-- reference.
use nvidia_haiku.Prelude.{
  ℕ, ◌+◌, ◌-◌, ◌≡◌, refl, sym, ap, ◌∙◌, subst, Bool, true, false, List, Option, none, some, ◌==◌,
  if◌then◌else◌, arith, Option-cases, Bool-cases, none≢some, some-injective, if_true, if_false, inl,
  inr,
}
use nvidia_haiku.Modeset.RefPtr.{RefPtrs, dec_ref}
use nvidia_haiku.Modeset.TimerQueue.{
  State, Timer, find, remove, store, cancel, call_proc, do_dpc, dpc_with_ref, clear_dpc,
}
use nvidia_haiku.Modeset.TimerQueue.Timers.{
  holds, holders, holds_same, holds_none, holds_lent, find-address, remove-AreDistinct,
  store-AreDistinct, holders-remove, holders-store, holders_running,
}
use nvidia_haiku.Modeset.TimerQueue.Spares.{find-store_self}
use nvidia_haiku.Modeset.TimerQueue.References.{
  Counted, bit, Inv, dec_ref-Counted, Inv-store, Inv-begins,
}
use nvidia_haiku.Modeset.TimerQueue.Kept.{IsCounted}

module _ (owners : ℕ → Bool) (s : State) (v : IsCounted owners s) (idle : s.running ≡ none) where
  -- With nothing running.
  at_rest : Inv s.timers none s.refs owners
  at_rest = subst (λ g. Inv s.timers g s.refs owners) idle v

  due : ℕ → ℕ
  due r = bit (owners r) + holders r none s.timers

  -- What is left when the holder `u` of a reference lets go.
  let_go :
      (u : Timer) (r m : ℕ)
      → u.is_ref_ptr ≡ true
      → m + holds r none u ≡ holders r none s.timers
      → (if r == u.data_ptr then due u.data_ptr - 1 else due r) ≡ bit (owners r) + m
  unfolding due
  let_go u r m lent e = elim (Bool-cases (r == u.data_ptr)) [
    | inl q ↦
        let same : u.data_ptr ≡ r = ground (arith, q) in
        let one : holds r none u ≡ 1 = holds_lent r none u lent none≢some ∙ if_true _ _ q in
        if_true _ _ q ∙ ap (λ j. due j - 1) same ∙ omega (arith, e, one)
    | inr q ↦
        let none_less : holds r none u ≡ 0 = holds_lent r none u lent none≢some ∙ if_false _ _ q in
        if_false _ _ q ∙ omega (arith, e, none_less)
  ]

  abbrev cleared : Timer → Timer
  cleared u = record u { dpc_scheduled = false }

  begun-holders :
      (u : Timer) (r : ℕ)
      → find u.address s.timers ≡ some u
      → holders r (some u.address) (store u.address (cleared u) s.timers) + holds r none u
        ≡ holders r none s.timers
  begun-holders u r q =
      let stored = store u.address (cleared u) s.timers in
      let here : find u.address stored ≡ some (cleared u) =
        find-store_self u.address (cleared u) s.timers u refl q in
      omega (
        arith,
        holders_running r u.address stored (cleared u)
            (store-AreDistinct u.address (cleared u) s.timers refl at_rest.distinct) here,
        holders-store r none u.address (cleared u) s.timers u q,
        holds_same r none u (cleared u) refl refl refl,
      )

  dpc_with_ref-IsCounted :
      (u : Timer) (queued : List ℕ) {t : State}
      → find u.address s.timers ≡ some u
      → u.is_ref_ptr ≡ true
      → dpc_with_ref u (record s { queued = queued; running = none }) ≡ some t
      → IsCounted owners t
  unfolding dpc_with_ref call_proc clear_dpc due
  dpc_with_ref-IsCounted u queued {t} q lent e = go (dec_ref u.data_ptr s.refs) refl e
    where
      go :
          (x : Option (Option ℕ × RefPtrs))
          → dec_ref u.data_ptr s.refs ≡ x
          → (elim x as (λ _. Option State) [
            | none ↦ none
            | some (none, refs) ↦ some (record s {
              timers = remove u.address s.timers;
              queued = queued;
              running = none;
              refs = refs;
            })
            | some (some ptr, refs) ↦ some (
                call_proc u ptr
                  (record (clear_dpc u (record s { queued = queued; running = none })) {
                    refs = refs;
                  }))
          ])
            ≡ some t
          → IsCounted owners t
      go none d f = absurd (none≢some f)
      go (some (none, refs)) d f = subst (IsCounted owners) (some-injective f) (record {
        distinct = remove-AreDistinct u.address s.timers at_rest.distinct;
        counted = λ r.
            subst (Counted (refs r))
              (let_go u r (holders r none (remove u.address s.timers)) lent
                (holders-remove r none u.address s.timers u q))
              ((dec_ref-Counted u.data_ptr s.refs due at_rest.counted d).1 r);
      })
      go (some (some ptr, refs)) d f = subst (IsCounted owners) (some-injective f) (record {
        distinct = store-AreDistinct u.address (cleared u) s.timers refl at_rest.distinct;
        counted = λ r.
            subst (Counted (refs r))
              (let_go u r (holders r (some u.address) (store u.address (cleared u) s.timers)) lent
                (begun-holders u r q))
              ((dec_ref-Counted u.data_ptr s.refs due at_rest.counted d).1 r);
      })

  begun_plain :
      (u : Timer)
      → find u.address s.timers ≡ some u
      → u.is_ref_ptr ≡ false
      → Inv (store u.address (cleared u) s.timers) (some u.address) s.refs owners
  begun_plain u q plain =
      Inv-begins u.address (cleared u) (store u.address (cleared u) s.timers)
        (find-store_self u.address (cleared u) s.timers u refl q)
        (λ r. holds_none r none (cleared u) plain)
        (Inv-store none u.address u (cleared u) s.timers q refl
          (λ r. holds_same r none u (cleared u) refl refl refl) at_rest)

  pub do_dpc-IsCounted : (address : ℕ) {t : State} → do_dpc address s ≡ some t → IsCounted owners t
  unfolding do_dpc call_proc clear_dpc
  do_dpc-IsCounted address {t} e = elim (Option-cases (find address s.timers)) [
    | inl q ↦ absurd (none≢some (rw (q, do_dpc) at e))
    | inr (u, q) ↦
        let w : u.address ≡ address = find-address address s.timers u q in
        let q' : find u.address s.timers ≡ some u =
          subst (λ a. find a s.timers ≡ some u) (sym w) q in
        let run = rw (q, do_dpc) at e in
        elim (Bool-cases u.dpc_scheduled) [
          | inr off ↦ subst (IsCounted owners) (some-injective (sym (if_false _ _ off) ∙ run)) v
          | inl on ↦ elim (Bool-cases u.is_ref_ptr) [
            | inr plain ↦
                subst (IsCounted owners)
                  (some-injective (sym (if_true _ _ on ∙ if_false _ _ plain) ∙ run))
                  (begun_plain u q' plain)
            | inl lent ↦ dpc_with_ref-IsCounted u (cancel address s.queued) q' lent (
                subst
                  (λ g.
                    dpc_with_ref u (record s { queued = cancel address s.queued; running = g })
                    ≡ some t)
                  idle (sym (if_true _ _ on ∙ if_true _ _ lent) ∙ run))
          ]
        ]
  ]
