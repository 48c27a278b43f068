-- ===== src/Handles/Examples.antt =====
-- Runs of the open files of nvidia_gsp/nvidia/BaseDevice.cpp.
use nvidia_haiku.Prelude.{
  ◌+◌, ℕ, ◌-◌, ◌≤◌, ◌<◌, ◌≡◌, ◌⊎◌, refl, true, false, List, [], ◌∷◌, ◌++◌, map, length, replicate,
  Option, none, some, arith,
}
use nvidia_haiku.Handles.Cards.{
  NvState, CardInfo, CardStatus, zero_info, entry, control_card_info, control_card_info-entry,
}
use nvidia_haiku.Handles.Ioctl.{Codes, Asks, encode, decode, decode-encode}
use nvidia_haiku.Handles.Mapping.{MappingContext, File, Request, zero_context, finish}
use nvidia_haiku.Handles.Control.{Backing, Call, control_map, left_areas, control_map_keeps_areas}
use nvidia_haiku.Handles.Select.{
  b_ok, set_dataless_event_pending, notify_select_pool, select, System, Event, posted, post_ended,
  post, post_begins, post_ends, Run, here, next, has_select, has_deselect, ends, count,
}
use nvidia_haiku.Handles.Select.Lost.{no_event_lost}

abbrev file : File
file = record { device = 4; context = zero_context }

abbrev request : Request
request = record {
  nv = 4;
  is_ctl = false;
  alloc = none;
  page_index = 0;
  ranges = record { start = 4096; size = 8192 } ∷ [];
  prot = 3;
  caching = 1;
}

abbrev create : Backing → Option (ℕ × ℕ)
create b = some (9, 65536)

abbrev call : Call
call = record {
  len = 64;
  params_size = 64;
  is_user_address = true;
  can_read = true;
  name_length = 5;
  can_write = false;
}

abbrev context : MappingContext
context = finish request (record zero_context { ranges = some request.ranges })

control_map_keeps_areas_example :
    (control_map create call false context (7 ∷ [])).1
    ≡ left_areas (control_map create call false context (7 ∷ [])).0 (7 ∷ [])
control_map_keeps_areas_example = control_map_keeps_areas create call false context (7 ∷ [])

-- A file with a waiter that no event has reached, and the same file after a post without data has ended
-- and one with data has begun.
abbrev waiting : System
waiting = record { waiters = record { pool = 5 ∷ []; pending = false; notified = [] }; posting = 0 }

abbrev reached : System
reached = record {
  waiters = record { pool = 5 ∷ []; pending = true; notified = 5 ∷ [] };
  posting = 1;
}

abbrev log : List Event
log = posted true ∷ (post_ended ∷ [])

reached-Run : Run (post false waiting) log reached
unfolding set_dataless_event_pending notify_select_pool
reached-Run = next (next here (post_ends (omega arith))) (post_begins true)

no_event_lost_example :
    ((has_select log ≡ true)
      ⊎ (select true true 5 reached.waiters ≡ (
        b_ok,
        record {
          pool = 5 ∷ reached.waiters.pool;
          pending = false;
          notified = 5 ∷ reached.waiters.notified;
        },
      )))
    × ((count 5 waiting.waiters.pool ≡ 0)
        ⊎ (has_deselect 5 log ≡ true)
        ⊎ (count 5 waiting.waiters.notified + ends log ≤ count 5 reached.waiters.notified))
no_event_lost_example = no_event_lost waiting 5 reached-Run

abbrev nv_state : NvState
nv_state = record {
  excluded = false;
  pci_info = record { domain = 0; bus = 1; slot = 0; vendor_id = 4318; device_id = 7810 };
  gpu_id = 256;
  interrupt_line = 11;
  regs = record { cpu_address = 3959422976; size = 16777216 };
  fb = record { cpu_address = 3489660928; size = 268435456 };
  device_index = 0;
}

abbrev cards : List CardInfo
cards = zero_info ∷ (zero_info ∷ (zero_info ∷ []))

control_card_info-entry_example :
    (control_card_info false true (λ i. true) (nv_state ∷ []) cards ≡ (CardStatus.einval, cards))
    × (((length cards < length (nv_state ∷ []))
          × (control_card_info true true (λ i. true) (nv_state ∷ []) cards
              ≡ (CardStatus.einval, replicate (length cards) zero_info)))
        ⊎ ((length (nv_state ∷ []) ≤ length cards)
            × (control_card_info true true (λ i. true) (nv_state ∷ []) cards ≡ (
              CardStatus.b_ok,
              map entry (nv_state ∷ [])
                  ++ replicate (length cards - length (nv_state ∷ [])) zero_info,
            ))))
control_card_info-entry_example =
    control_card_info-entry (nv_state ∷ []) cards (λ i. true) (λ i. refl)

abbrev codes : Codes
codes = record { signature = 8000; base = 10000; card_info = 200 }

decode-encode_example : Asks codes 42 (decode codes (encode codes 42))
decode-encode_example = decode-encode codes 42 (omega arith) (omega arith)
