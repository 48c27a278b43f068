-- ===== src/Modeset/Client.antt =====
-- nvidia_gsp/nvidia-modeset/KmsDevice.{h,cpp}: an open file of the modeset device. The mode setting
-- library keeps a cookie for each; what its calls answer is a parameter.
pub mod Level
use nvidia_haiku.Prelude.{
  ℕ, ◌+◌, ◌-◌, ◌≡◌, ◌⊎◌, inl, inr, refl, sym, ap, ◌∙◌, Bool, true, false, not, Option, none, some,
  List, [], ◌∷◌, ltb, ◌==◌, ==_iff, if◌then◌else◌, if_true, if_false, arith,
}
use nvidia_haiku.Handles.Select.{
  Status, b_ok, b_bad_value, b_no_memory, b_entry_not_found, remove, notify_all,
}

-- `fSelectPool` and `fEventsAvailable`, and every call of `notify_select_event` so far.
pub record Client : Type 0 where
  pub cookie : Option ℕ
  pub pool : List ℕ
  pub events_available : Bool
  pub notified : List ℕ

abbrev pub new_client : Client
new_client = record { cookie = none; pool = []; events_available = false; notified = [] }

-- The cookies that the library keeps open; the destructor closes the client's.
unfoldable pub destroy : Client → List ℕ → List ℕ
destroy c cookies = elim c.cookie [ none ↦ cookies | some k ↦ remove k cookies ]

-- From the answer of `nvKmsOpen` on, none for null: the client is deleted where it is.
abbrev pub opened : Option ℕ → List ℕ → Status × Option Client × List ℕ
opened none cookies = (b_no_memory, none, destroy new_client cookies)
opened (some k) cookies = (b_ok, some (record new_client { cookie = some k }), k ∷ cookies)

-- `Open`, with whether there is memory for a client.
unfoldable pub open_client : Bool → Option ℕ → List ℕ → Status × Option Client × List ℕ
unfolding destroy
open_client memory answer cookies =
    if not memory then (b_no_memory, none, cookies) else opened answer cookies

-- `EventQueueChanged`.
unfoldable pub event_queue_changed : Bool → Client → Client
event_queue_changed available c =
    let d = record c { events_available = available } in
    if available then record d { notified = notify_all d.pool d.notified } else d

-- `Select`: whether the event is `B_SELECT_READ`, and what `add_select_sync_pool_entry` answers.
unfoldable pub select : (is_read memory : Bool) → ℕ → Client → Status × Client
select is_read memory sync c =
    if not is_read
    then (b_bad_value, c)
    else if not memory
    then (b_no_memory, c)
    else if c.events_available
    then (b_ok, record c { pool = sync ∷ c.pool; notified = sync ∷ c.notified })
    else (b_ok, record c { pool = sync ∷ c.pool })

-- `Deselect`, and what `remove_select_sync_pool_entry` answers.
unfoldable pub deselect : (is_read found : Bool) → ℕ → Client → Status × Client
deselect is_read found sync c =
    if not is_read
    then (b_bad_value, c)
    else if not found
    then (b_entry_not_found, c)
    else (b_ok, record c { pool = remove sync c.pool })

-- `Open` gives a client exactly where it returns `B_OK`, and deleting that client closes what it opened;
-- where it fails, the library has no cookie more than before.
pub open_client-balanced :
    (memory : Bool) (answer : Option ℕ) (cookies : List ℕ)
    → (((open_client memory answer cookies).0 ≡ b_no_memory)
        × ((open_client memory answer cookies).1 ≡ none)
        × ((open_client memory answer cookies).2 ≡ cookies))
      ⊎ ((c : Client) × ((open_client memory answer cookies).0 ≡ b_ok)
          × ((open_client memory answer cookies).1 ≡ some c)
          × (destroy c (open_client memory answer cookies).2 ≡ cookies))
unfolding open_client destroy
open_client-balanced false answer cookies = inl (refl, refl, refl)
open_client-balanced true none cookies = inl (refl, refl, refl)
open_client-balanced true (some k) cookies = inr (
  record new_client { cookie = some k },
  refl,
  refl,
  if_true {b = k == k} _ _ ((==_iff k k).1 refl),
)
