-- ===== src/Accelerant/Examples.antt =====
-- Runs of accelerant/Accelerant.cpp on two modes of 1920 by 1080 and one that is interlaced.
use mathlib.Core.Option
use nvidia_haiku.Prelude.{
  get_elem?, ◌⊎◌, ℕ, ◌+◌, Option, some, ◌-◌, ◌^◌, ◌≤◌, ◌<◌, ◌≡◌, refl, Bool, true, false, List, [],
  ◌∷◌, arith, ltb,
}
use nvidia_haiku.Accelerant.Timings.{
  DisplayTiming, ModeTimings, DisplayMode, to_haiku_mode_timings, to_nv_kms_mode_timings,
  calc_refresh_rate, to_haiku_mode, mode_timings_equal, to_haiku-to_nv_kms,
}
use nvidia_haiku.Accelerant.Propose.{Proposed, has_exact, propose_mode, propose_mode-Proposed}
use nvidia_haiku.Accelerant.Cursor.{
  Copy, IsLine, AllWithin, align_up, new_bitmap, bitmap_size, memory_size, cursor_size,
  set_cursor_bitmap, copy_lines, set_cursor_bitmap-AllWithin,
}
use nvidia_haiku.Accelerant.Display.{
  Request, Replies, Display, holds, show_bitmap, set_display_mode, store_bitmap, Reach, initial,
  sets, framebuffers_owned,
}
use nvidia_haiku.Accelerant.Pointer

abbrev mode : (rr_x1k pixel_clock_hz : ℕ) → Bool → ModeTimings
mode rr_x1k pixel_clock_hz interlaced = record {
  rr_x1k = rr_x1k;
  pixel_clock_hz = pixel_clock_hz;
  h_visible = 1920;
  h_sync_start = 2008;
  h_sync_end = 2052;
  h_total = 2200;
  v_visible = 1080;
  v_sync_start = 1084;
  v_sync_end = 1089;
  v_total = 1125;
  interlaced = interlaced;
  h_sync_pos = true;
  h_sync_neg = false;
  v_sync_pos = true;
  v_sync_neg = false;
}

abbrev modes : List ModeTimings
modes = mode 60000 148500000 false ∷ mode 50000 123750000 false ∷ mode 60000 74250000 true ∷ []

abbrev timing : DisplayTiming
timing = record {
  pixel_clock = 140000;
  h_display = 1920;
  h_sync_start = 2008;
  h_sync_end = 2052;
  h_total = 2200;
  v_display = 1080;
  v_sync_start = 1084;
  v_sync_end = 1089;
  v_total = 1125;
  flags = record { interlaced = false; positive_hsync = true; positive_vsync = true; rest = 0 };
}

abbrev target : DisplayMode
target = record { timing = timing; virtual_width = 1920; virtual_height = 1080 }

to_haiku-to_nv_kms_example :
    Option.map to_haiku_mode_timings (to_nv_kms_mode_timings timing) ≡ some timing
to_haiku-to_nv_kms_example = to_haiku-to_nv_kms timing (omega arith) (omega arith) refl

propose_mode-Proposed_example :
    Proposed modes target target target (propose_mode modes target target target)
unfolding has_exact mode_timings_equal to_haiku_mode to_haiku_mode_timings
propose_mode-Proposed_example = propose_mode-Proposed modes target target target refl

-- The bit of interlacing, as far as these sizes go.
abbrev high_bit : ℕ → Bool
high_bit n = ltb (2 ^ 28 - 1) n

high_bit-small : (n : ℕ) → n < 2 ^ 16 → high_bit n ≡ false
high_bit-small n h = ground (arith, h)

abbrev copies : List Copy
copies =
    record { offset = 0; source = 0; length = 12 }
    ∷ record { offset = 256; source = 12; length = 12 }
    ∷ []

set_cursor_bitmap-AllWithin_example :
    AllWithin 256 8192 copies × (8192 ≤ 8192) × IsLine 3 256 12 2 0 1 (get_elem? copies 1)
unfolding set_cursor_bitmap cursor_size new_bitmap copy_lines align_up bitmap_size memory_size
set_cursor_bitmap-AllWithin_example = set_cursor_bitmap-AllWithin 3 2 12 1 refl

abbrev request : Request
request = record { mode = target; h_display_start = 0; v_display_start = 0 }

abbrev replies : Option ℕ → Bool → Replies
replies bitmap mode_is_set = record {
  validated = true;
  valid = true;
  bitmap = bitmap;
  mode_is_set = mode_is_set;
  unmapped = true;
  unregistered = true;
  freed = true;
}

abbrev twice_set : Display
unfolding to_nv_kms_mode_timings calc_refresh_rate
twice_set = record {
  current_mode = to_nv_kms_mode_timings timing;
  framebuffer = some 5;
  old_framebuffer = some 4;
  live = λ h. 0 + holds (some 4) h - 0 + holds (some 5) h - 0 + holds (some 6) h - holds (some 6) h;
  shown = some 5;
}

twice_set-Reach : Reach false twice_set
unfolding set_display_mode show_bitmap store_bitmap to_nv_kms_mode_timings calc_refresh_rate
twice_set-Reach =
    sets (replies (some 6) false) request
      (sets (replies (some 5) true) request (sets (replies (some 4) true) request initial))

framebuffers_owned_example :
    (twice_set.live 5 ≡ holds twice_set.framebuffer 5 + holds twice_set.old_framebuffer 5)
    × (((twice_set.shown ≡ twice_set.framebuffer) × (holds twice_set.shown 5 ≤ twice_set.live 5))
        ⊎ (false ≡ true))
framebuffers_owned_example = framebuffers_owned 5 twice_set-Reach

abbrev pointer : Pointer.Pointer
pointer = record {
  cursor = 7;
  new_cursor = 0;
  visible = true;
  x = 5;
  y = 6;
  hot_x = 1;
  hot_y = 1;
  image = 7;
  head_x = 4;
  head_y = 5;
}

pointer-Reach : Pointer.Reach pointer
unfolding Pointer.move_cursor Pointer.show_cursor Pointer.use_cursor Pointer.update_image
    Pointer.update_pos
pointer-Reach = Pointer.moves 5 6 (Pointer.shows true (Pointer.uses 7 1 1 Pointer.initial))
