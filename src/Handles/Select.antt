-- ===== src/Handles/Select.antt =====
-- Waiting for events on a file: `Select`, `Deselect` and the pending event of
-- nvidia_gsp/nvidia/BaseDevice.{h,cpp} with `nv_post_event` of os-haiku.cpp. A post is cut where the
-- flag is set and where the waiters are notified under the mutex.
pub mod Lost
use nvidia_haiku.Prelude.{
  ℕ, zero, suc, arith, if_false, ◌≤◌, ◌≢◌, subst, ◌+◌, ◌-◌, ◌++◌, ◌<◌, ◌≡◌, ◌⊎◌, refl, sym, ap, ◌∙◌,
  Bool, true, false, not, List, [], ◌∷◌, ◌==◌, if◌then◌else◌, Bool-cases, if_true, inl, inr,
}

-- `fSelectPool`, `fDatalessEventPending`, and every call of `notify_select_event` so far.
pub record Waiters : Type 0 where
  pub pool : List ℕ
  pub pending : Bool
  pub notified : List ℕ

pub data Status : Type 0 where
  b_ok : Status
  b_bad_value : Status
  b_no_memory : Status
  b_entry_not_found : Status

abbrev pub remove : ℕ → List ℕ → List ℕ
remove a [] = []
remove a (x ∷ xs) = if x == a then xs else x ∷ remove a xs

abbrev pub notify_all : List ℕ → List ℕ → List ℕ
notify_all [] done = done
notify_all (x ∷ xs) done = x ∷ notify_all xs done

-- `SetDatalessEventPending`.
unfoldable pub set_dataless_event_pending : Waiters → Waiters
set_dataless_event_pending w = record w { pending = true }

-- `NotifySelectPool`.
unfoldable pub notify_select_pool : Waiters → Waiters
notify_select_pool w = record w { notified = notify_all w.pool w.notified }

-- `Select`: whether the event is `B_SELECT_READ`, and what `add_select_sync_pool_entry` answers.
unfoldable pub select : (is_read memory : Bool) → ℕ → Waiters → Status × Waiters
select is_read memory sync w =
    if not is_read
    then (b_bad_value, w)
    else if not memory
    then (b_no_memory, w)
    else if w.pending
    then (b_ok, record { pool = sync ∷ w.pool; pending = false; notified = sync ∷ w.notified })
    else (b_ok, record w { pool = sync ∷ w.pool })

-- `Deselect`, and what `remove_select_sync_pool_entry` answers.
unfoldable pub deselect : (is_read found : Bool) → ℕ → Waiters → Status × Waiters
deselect is_read found sync w =
    if not is_read
    then (b_bad_value, w)
    else if not found
    then (b_entry_not_found, w)
    else (b_ok, record w { pool = remove sync w.pool })

-- The file, and the posts that have not notified yet.
pub record System : Type 0 where
  pub waiters : Waiters
  pub posting : ℕ

pub data Event : Type 0 where
  posted : (has_data : Bool) → Event
  post_ended : Event
  selected : ℕ → Event
  deselected : ℕ → Event

-- `nv_post_event` up to the notification. A post with data does not set the flag.
abbrev pub post : (has_data : Bool) → System → System
post true s = record s { posting = s.posting + 1 }
post false s = record { waiters = set_dataless_event_pending s.waiters; posting = s.posting + 1 }

pub data Step (s : System) : Event → System → Type 0 where
  post_begins : (has_data : Bool) → Step s (posted has_data) (post has_data s)
  post_ends :
      0 < s.posting
      → Step s post_ended
          (record { waiters = notify_select_pool s.waiters; posting = s.posting - 1 })
  selects :
      (is_read memory : Bool) (sync : ℕ) {w : Waiters}
      → select is_read memory sync s.waiters ≡ (b_ok, w)
      → Step s (selected sync) (record s { waiters = w })
  deselects :
      (is_read found : Bool) (sync : ℕ) {w : Waiters}
      → deselect is_read found sync s.waiters ≡ (b_ok, w)
      → Step s (deselected sync) (record s { waiters = w })

-- The steps from `s` on, the last one first.
pub data Run (s : System) : List Event → System → Type 0 where
  here : Run s [] s
  next : {es : List Event} {e : Event} {t u : System} → Run s es t → Step t e u → Run s (e ∷ es) u

abbrev pub has_select : List Event → Bool
has_select [] = false
has_select (posted has_data ∷ es) = has_select es
has_select (post_ended ∷ es) = has_select es
has_select (selected x ∷ es) = true
has_select (deselected x ∷ es) = has_select es

abbrev pub has_deselect : ℕ → List Event → Bool
has_deselect x [] = false
has_deselect x (posted has_data ∷ es) = has_deselect x es
has_deselect x (post_ended ∷ es) = has_deselect x es
has_deselect x (selected y ∷ es) = has_deselect x es
has_deselect x (deselected y ∷ es) = if y == x then true else has_deselect x es

abbrev pub ends : List Event → ℕ
ends [] = 0
ends (posted has_data ∷ es) = ends es
ends (post_ended ∷ es) = suc (ends es)
ends (selected x ∷ es) = ends es
ends (deselected x ∷ es) = ends es

abbrev pub count : ℕ → List ℕ → ℕ
count x [] = 0
count x (y ∷ ys) = (if y == x then 1 else 0) + count x ys
