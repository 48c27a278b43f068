-- ===== src/Modeset/TimerQueue/Spares.antt =====
-- An operation of nvidia-modeset/TimerQueue.cpp on one timer leaves the others alone.
use mathlib.Core.Option
use nvidia_haiku.Prelude.{
  none≢some, some-injective, ℕ, ◌+◌, ◌≡◌, ◌≢◌, refl, ◌∙◌, subst, Bool, false, List, [], ◌∷◌, ◌++◌,
  Option, none, some, ◌==◌, if◌then◌else◌, arith, Option-cases, Bool-cases, inl, inr,
}
use nvidia_haiku.Modeset.RefPtr.{RefPtrs, inc_ref, dec_ref}
use nvidia_haiku.Modeset.TimerQueue.{
  State, Timer, Call, find, remove, store, cancel, new_timer, insert, create, schedule, free,
  timer_hook, call_proc, do_dpc, end_dpc, dpc_with_ref, clear_dpc,
}
use nvidia_haiku.Modeset.TimerQueue.Timers.{AreDistinct, find-address}

-- The calls that were made for the timer at an address.
pub calls_of : ℕ → List Call → ℕ
calls_of a [] = 0
calls_of a (c ∷ cs) = (if c.timer == a then 1 else 0) + calls_of a cs

pub calls_of-append :
    (a : ℕ) (cs ds : List Call) → calls_of a (cs ++ ds) ≡ calls_of a cs + calls_of a ds
unfolding calls_of
calls_of-append a [] ds = omega arith
calls_of-append a (c ∷ cs) ds = omega (arith, calls_of-append a cs ds)

find-store_ne :
    (a b : ℕ) (u : Timer) (ts : List Timer)
    → u.address ≡ b
    → a ≢ b
    → find a (store b u ts) ≡ find a ts
unfolding find store
find-store_ne a b u [] w h = refl
find-store_ne a b u (t ∷ ts) w h = ground (arith, find-store_ne a b u ts)

pub find-store_self :
    (a : ℕ) (u : Timer) (ts : List Timer) (t : Timer)
    → u.address ≡ a
    → find a ts ≡ some t
    → find a (store a u ts) ≡ some u
unfolding find store
find-store_self a u [] t w e = cc
find-store_self a u (x ∷ ts) t w e = ground (arith, find-store_self a u ts t)

pub find-remove_other : (a b : ℕ) (ts : List Timer) → a ≢ b → find a (remove b ts) ≡ find a ts
unfolding find remove
find-remove_other a b [] h = refl
find-remove_other a b (t ∷ ts) h = ground (arith, find-remove_other a b ts)

pub find-remove_self : (a : ℕ) (ts : List Timer) → AreDistinct ts → find a (remove a ts) ≡ none
unfolding find remove
find-remove_self a [] d = refl
find-remove_self a (t ∷ ts) d = elim (Bool-cases (t.address == a)) [
  | inl q ↦ let here : t.address ≡ a = ground arith in rw q (subst (λ b. find b ts ≡ none) here d.0)
  | inr q ↦ rw (q, find) (rw q (find-remove_self a ts d.1))
]

find-append_ne :
    (a : ℕ) (t : Timer) (ts : List Timer) → a ≢ t.address → find a (ts ++ t ∷ []) ≡ find a ts
unfolding find
find-append_ne a t [] h = ground arith
find-append_ne a t (x ∷ ts) h = ground (arith, find-append_ne a t ts)

pub find-append_self :
    (t : Timer) (ts : List Timer)
    → find t.address ts ≡ none
    → find t.address (ts ++ t ∷ []) ≡ some t
unfolding find
find-append_self t [] e = ground arith
find-append_self t (x ∷ ts) e = ground (arith, find-append_self t ts)

pub calls_of-other :
    (a b proc data_ptr data_u32 : ℕ) (cs : List Call)
    → a ≢ b
    → calls_of a
        (cs ++ record { timer = b; proc = proc; data_ptr = data_ptr; data_u32 = data_u32 } ∷ [])
      ≡ calls_of a cs
unfolding calls_of
calls_of-other a b proc data_ptr data_u32 [] h = ground arith
calls_of-other a b proc data_ptr data_u32 (c ∷ cs) h =
    omega (arith, calls_of-other a b proc data_ptr data_u32 cs h)

abbrev pub called_with : Timer → ℕ → Call
called_with u ptr = record {
  timer = u.address;
  proc = u.proc;
  data_ptr = ptr;
  data_u32 = u.data_u32;
}

-- What an operation leaves alone of the timer at `a`.
pub record Spares (a : ℕ) (s t : State) : Type 0 where
  pub same : find a t.timers ≡ find a s.timers
  pub called : calls_of a t.calls ≡ calls_of a s.calls

module _ (a b : ℕ) (s : State) (other : a ≢ b) where
  -- A write to the timer at `b`.
  pub store-Spares :
      (u v : Timer)
      → find b s.timers ≡ some u
      → v.address ≡ u.address
      → find a (store b v s.timers) ≡ find a s.timers
  store-Spares u v q w = find-store_ne a b v s.timers (w ∙ find-address b s.timers u q) other

  pub schedule-Spares : (usec : ℕ) {t : State} → schedule b usec s ≡ some t → Spares a s t
  unfolding schedule
  schedule-Spares usec e = elim (Option-cases (find b s.timers)) [
    | inl q ↦ absurd (none≢some (rw (q, schedule) at e))
    | inr (u, q) ↦
        subst (Spares a s) (some-injective (rw (q, schedule) at e)) (elim (Bool-cases (usec == 0)) [
          | inl now ↦ rw now (record { same = store-Spares u _ q refl; called = refl })
          | inr later ↦ rw later (record { same = store-Spares u _ q refl; called = refl })
        ])
  ]

  pub timer_hook-Spares : {t : State} → timer_hook b s ≡ some t → Spares a s t
  unfolding timer_hook
  timer_hook-Spares e = elim (Option-cases (find b s.timers)) [
    | inl q ↦ absurd (none≢some (rw (q, timer_hook) at e))
    | inr (u, q) ↦
        subst (Spares a s) (some-injective (rw (q, timer_hook) at e))
          (elim (Bool-cases u.timer_scheduled) [
            | inl on ↦ simp on (record { same = store-Spares u _ q refl; called = refl })
            | inr off ↦ simp off (record { same = refl; called = refl })
          ])
  ]

  pub free-Spares : {t : State} → free (some b) s ≡ some t → Spares a s t
  unfolding free
  free-Spares e = elim (Option-cases (find b s.timers)) [
    | inl q ↦ absurd (none≢some (rw (q, free) at e))
    | inr (u, q) ↦
        subst (Spares a s) (some-injective (rw (q, free) at e))
          (record { same = find-remove_other a b s.timers other; called = refl })
  ]

  pub create-Spares :
      (proc data_ptr data_u32 : ℕ) (lent : Bool) {t : State}
      → create b proc data_ptr data_u32 lent s ≡ some t
      → Spares a s t
  unfolding create
  create-Spares proc data_ptr data_u32 lent {t} e =
      go (if lent then inc_ref data_ptr s.refs else some s.refs) e
    where
      go :
          (r : Option RefPtrs)
          → Option.map (insert (new_timer b proc data_ptr data_u32 lent) s) r ≡ some t
          → Spares a s t
      go none e = absurd (none≢some e)
      go (some refs) e = subst (Spares a s) (some-injective e) (record {
        same = find-append_ne a (new_timer b proc data_ptr data_u32 lent) s.timers other;
        called = refl;
      })

  pub call_proc-Spares :
      (u : Timer) (ptr : ℕ) (t : State)
      → u.address ≡ b
      → Spares a s t
      → Spares a s (call_proc u ptr t)
  unfolding call_proc calls_of
  call_proc-Spares u ptr t w v = record {
    same = v.same;
    called = ground (arith, calls_of-append a t.calls (called_with u ptr ∷ []), v.called);
  }

  pub end_dpc-Spares : {t : State} → end_dpc b s ≡ some t → Spares a s t
  unfolding end_dpc
  end_dpc-Spares e = elim (Option-cases (find b s.timers)) [
    | inl q ↦ absurd (none≢some (rw (q, end_dpc) at e))
    | inr (u, q) ↦
        subst (Spares a s) (some-injective (rw (q, end_dpc) at e)) (elim (Bool-cases u.is_ref_ptr) [
          | inl lent ↦
              rw lent (record { same = find-remove_other a b s.timers other; called = refl })
          | inr plain ↦ rw plain (record { same = refl; called = refl })
        ])
  ]

  pub dpc_with_ref-Spares :
      (u : Timer) {t : State} → u.address ≡ b → dpc_with_ref u s ≡ some t → Spares a s t
  unfolding dpc_with_ref
  dpc_with_ref-Spares u {t} w e = go (dec_ref u.data_ptr s.refs) e
    where
      cleared :
          find a (store u.address (record u { dpc_scheduled = false }) s.timers) ≡ find a s.timers
      cleared = find-store_ne a u.address _ s.timers refl (λ q. other (q ∙ w))

      go :
          (x : Option (Option ℕ × RefPtrs))
          → (elim x as (λ _. Option State) [
            | none ↦ none
            | some (none, refs) ↦
                some (record s { timers = remove u.address s.timers; refs = refs })
            | some (some ptr, refs) ↦
                some (call_proc u ptr (record (clear_dpc u s) { refs = refs }))
          ])
            ≡ some t
          → Spares a s t
      go none e = absurd (none≢some e)
      go (some (none, refs)) e = subst (Spares a s) (some-injective e) (record {
        same = find-remove_other a u.address s.timers (λ q. other (q ∙ w));
        called = refl;
      })
      go (some (some ptr, refs)) e = subst (Spares a s) (some-injective e) (
          call_proc-Spares u ptr (record (clear_dpc u s) { refs = refs }) w
            (record { same = cleared; called = refl }))

module _ (a b : ℕ) (s : State) (other : a ≢ b) where
  pub do_dpc-Spares : {t : State} → do_dpc b s ≡ some t → Spares a s t
  unfolding do_dpc
  do_dpc-Spares {t} e = elim (Option-cases (find b s.timers)) [
    | inl q ↦ absurd (none≢some (rw (q, do_dpc) at e))
    | inr (u, q) ↦
        let w : u.address ≡ b = find-address b s.timers u q in
        elim (Bool-cases u.dpc_scheduled) [
          | inl on ↦ elim (Bool-cases u.is_ref_ptr) [
            | inl lent ↦
                let d =
                  dpc_with_ref-Spares a b (record s { queued = cancel b s.queued }) other u {t = t}
                    w (simp (on, lent) at (rw (q, do_dpc) at e)) in
                record { same = d.same; called = d.called }
            | inr plain ↦
                subst (Spares a s) (some-injective (simp (on, plain) at (rw (q, do_dpc) at e)))
                  (record {
                    same = find-store_ne a u.address _ s.timers refl (λ x. other (x ∙ w));
                    called =
                        calls_of-other a u.address u.proc u.data_ptr u.data_u32 s.calls
                          (λ x. other (x ∙ w));
                  })
          ]
          | inr off ↦
              subst (Spares a s) (some-injective (simp off at (rw (q, do_dpc) at e)))
                (record { same = refl; called = refl })
        ]
  ]
