-- ===== src/Modeset/Client/Level.antt =====
-- That a waiter on a file of nvidia_gsp/nvidia-modeset/KmsDevice.cpp learns of events that are there, when
-- the queue changes, selects and deselects come in any order.
use nvidia_haiku.Prelude.{
  ℕ, ◌≡◌, ◌⊎◌, inl, inr, refl, sym, ap, ◌∙◌, subst, Bool, true, false, List, [], ◌∷◌, ◌==◌,
  if◌then◌else◌,
}
use nvidia_haiku.Handles.Select.{
  Status, b_ok, b_bad_value, b_no_memory, b_entry_not_found, remove, notify_all,
}
use nvidia_haiku.Modeset.Client.{Client, new_client, event_queue_changed, select, deselect}

abbrev pub IsIn : ℕ → List ℕ → Type 0
IsIn a [] = ⊥
IsIn a (x ∷ xs) = (a ≡ x) ⊎ IsIn a xs

-- `notified` starts afresh when the queue runs empty, so that it holds who learned of the events that
-- are there now.
pub data Step (c : Client) : Client → Type 0 where
  arrives : Step c (event_queue_changed true c)
  runs_empty : Step c (record (event_queue_changed false c) { notified = [] })
  selects :
      (is_read memory : Bool) (sync : ℕ) {d : Client}
      → select is_read memory sync c ≡ (b_ok, d)
      → Step c d
  deselects :
      (is_read found : Bool) (sync : ℕ) {d : Client}
      → deselect is_read found sync c ≡ (b_ok, d)
      → Step c d

pub data Reach : Client → Type 0 where
  initial : Reach new_client
  next : {c d : Client} → Reach c → Step c d → Reach d

abbrev AllTold : Client → Type 0
AllTold c = c.events_available ≡ true → (a : ℕ) → IsIn a c.pool → IsIn a c.notified

IsIn-notify_all : (xs done : List ℕ) (a : ℕ) → IsIn a xs → IsIn a (notify_all xs done)
IsIn-notify_all [] done a i = elim i [ ]
IsIn-notify_all (x ∷ xs) done a (inl e) = inl e
IsIn-notify_all (x ∷ xs) done a (inr i) = inr (IsIn-notify_all xs done a i)

IsIn-remove : (s : ℕ) (xs : List ℕ) (a : ℕ) → IsIn a (remove s xs) → IsIn a xs
IsIn-remove s [] a i = elim i [ ]
IsIn-remove s (x ∷ xs) a i = rest (x == s) i (IsIn-remove s xs a)
  where
    rest :
        (b : Bool)
        → IsIn a (if b then xs else x ∷ remove s xs)
        → (IsIn a (remove s xs) → IsIn a xs)
        → (a ≡ x) ⊎ IsIn a xs
    rest true i ih = inr i
    rest false (inl e) ih = inl e
    rest false (inr i) ih = inr (ih i)

bad≢ok : {c d : Client} → ◌≡◌ {A = Status × Client} (b_bad_value, c) (b_ok, d) → ⊥
bad≢ok e = cc

no_memory≢ok : {c d : Client} → ◌≡◌ {A = Status × Client} (b_no_memory, c) (b_ok, d) → ⊥
no_memory≢ok e = cc

missing≢ok : {c d : Client} → ◌≡◌ {A = Status × Client} (b_entry_not_found, c) (b_ok, d) → ⊥
missing≢ok e = cc

abbrev selected : Bool → ℕ → Client → Status × Client
selected available sync c =
    if available
    then (b_ok, record c { pool = sync ∷ c.pool; notified = sync ∷ c.notified })
    else (b_ok, record c { pool = sync ∷ c.pool })

select-AllTold :
    (is_read memory : Bool) (sync : ℕ) (c : Client) {d : Client}
    → select is_read memory sync c ≡ (b_ok, d)
    → AllTold c
    → AllTold d
unfolding select
select-AllTold false memory sync c e told = absurd (bad≢ok e)
select-AllTold true false sync c e told = absurd (no_memory≢ok e)
select-AllTold true true sync c {d} e told =
    subst AllTold (ap (λ (r : Status × Client). r.1) e) (both c.events_available refl)
  where
    false≢true : false ≡ true → ⊥
    false≢true f = cc

    both : (b : Bool) → c.events_available ≡ b → AllTold (selected b sync c).1
    both true p = λ q a i. elim i [ inl f ↦ inl f | inr j ↦ inr (told q a j) ]
    both false p = λ q. absurd (false≢true (sym p ∙ q))

deselect-AllTold :
    (is_read found : Bool) (sync : ℕ) (c : Client) {d : Client}
    → deselect is_read found sync c ≡ (b_ok, d)
    → AllTold c
    → AllTold d
unfolding deselect
deselect-AllTold false found sync c e told = absurd (bad≢ok e)
deselect-AllTold true false sync c e told = absurd (missing≢ok e)
deselect-AllTold true true sync c e told =
    subst AllTold (ap (λ (r : Status × Client). r.1) e)
      (λ q a i. told q a (IsIn-remove sync c.pool a i))

Step-AllTold : {c d : Client} → Step c d → AllTold c → AllTold d
unfolding event_queue_changed
Step-AllTold {c} arrives told = λ q a i. IsIn-notify_all c.pool c.notified a i
Step-AllTold runs_empty told = λ q. absurd (false≢true q)
  where
    false≢true : false ≡ true → ⊥
    false≢true f = cc
Step-AllTold {c} (selects is_read memory sync e) told = select-AllTold is_read memory sync c e told
Step-AllTold {c} (deselects is_read found sync e) told =
    deselect-AllTold is_read found sync c e told

Reach-AllTold : {c : Client} → Reach c → AllTold c
Reach-AllTold initial = λ q a i. i
Reach-AllTold (next r st) = Step-AllTold st (Reach-AllTold r)

-- At any time at which the queue has events, every waiter in the pool has been notified since the
-- queue was last empty, in whatever order events, selects and deselects came.
pub waiters_told :
    {c : Client} (a : ℕ) → Reach c → c.events_available ≡ true → IsIn a c.pool → IsIn a c.notified
waiters_told a r q i = Reach-AllTold r q a i
