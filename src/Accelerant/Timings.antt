-- ===== src/Accelerant/Timings.antt =====
-- The two forms of a mode's timings in accelerant/Accelerant.cpp, and the comparison of two modes.
use mathlib.Core.Option
use nvidia_haiku.Prelude.{
  Option, none, some, ap, ◌∙◌, if_false, ℕ, ◌*◌, ◌/◌, ◌%◌, ◌^◌, ◌<◌, ◌≡◌, sym, Bool, true, false,
  not, ◌&&◌, ◌||◌, if◌then◌else◌, ltb, ◌==◌, arith,
}

-- `flags`, for the bits that the code uses; `rest` are the others, 0 where the code makes the flags.
pub record Flags : Type 0 where
  pub interlaced : Bool
  pub positive_hsync : Bool
  pub positive_vsync : Bool
  pub rest : ℕ

pub record DisplayTiming : Type 0 where
  pub pixel_clock : ℕ
  pub h_display : ℕ
  pub h_sync_start : ℕ
  pub h_sync_end : ℕ
  pub h_total : ℕ
  pub v_display : ℕ
  pub v_sync_start : ℕ
  pub v_sync_end : ℕ
  pub v_total : ℕ
  pub flags : Flags

pub record ModeTimings : Type 0 where
  pub rr_x1k : ℕ
  pub pixel_clock_hz : ℕ
  pub h_visible : ℕ
  pub h_sync_start : ℕ
  pub h_sync_end : ℕ
  pub h_total : ℕ
  pub v_visible : ℕ
  pub v_sync_start : ℕ
  pub v_sync_end : ℕ
  pub v_total : ℕ
  pub interlaced : Bool
  pub h_sync_pos : Bool
  pub h_sync_neg : Bool
  pub v_sync_pos : Bool
  pub v_sync_neg : Bool

pub record DisplayMode : Type 0 where
  pub timing : DisplayTiming
  pub virtual_width : ℕ
  pub virtual_height : ℕ

-- Where a total is 0 the code divides by 0 and crashes, none.
unfoldable pub calc_refresh_rate : DisplayTiming → Option ℕ
calc_refresh_rate t =
    if t.h_total * t.v_total == 0
    then none
    else some (
        (if t.flags.interlaced then 2000000 else 1000000)
        * t.pixel_clock
        / (t.h_total * t.v_total)
        % 2 ^ 32)

unfoldable pub to_haiku_mode_timings : ModeTimings → DisplayTiming
to_haiku_mode_timings m = record {
  pixel_clock = m.pixel_clock_hz / 1000;
  h_display = m.h_visible;
  h_sync_start = m.h_sync_start;
  h_sync_end = m.h_sync_end;
  h_total = m.h_total;
  v_display = m.v_visible;
  v_sync_start = m.v_sync_start;
  v_sync_end = m.v_sync_end;
  v_total = m.v_total;
  flags = record {
    interlaced = m.interlaced;
    positive_hsync = m.h_sync_pos;
    positive_vsync = m.v_sync_pos;
    rest = 0;
  };
}

-- `pixel_clock * 1000` wraps around at 32 bits.
abbrev pub nv_kms_timings : DisplayTiming → ℕ → ModeTimings
nv_kms_timings t rr_x1k = record {
  rr_x1k = rr_x1k;
  pixel_clock_hz = t.pixel_clock * 1000 % 2 ^ 32;
  h_visible = t.h_display;
  h_sync_start = t.h_sync_start;
  h_sync_end = t.h_sync_end;
  h_total = t.h_total;
  v_visible = t.v_display;
  v_sync_start = t.v_sync_start;
  v_sync_end = t.v_sync_end;
  v_total = t.v_total;
  interlaced = t.flags.interlaced;
  h_sync_pos = t.flags.positive_hsync;
  h_sync_neg = not t.flags.positive_hsync;
  v_sync_pos = t.flags.positive_vsync;
  v_sync_neg = not t.flags.positive_vsync;
}

unfoldable pub to_nv_kms_mode_timings : DisplayTiming → Option ModeTimings
unfolding calc_refresh_rate
to_nv_kms_mode_timings t = Option.map (nv_kms_timings t) (calc_refresh_rate t)

-- `ToHaikuMode`, without the colour space, which is fixed.
unfoldable pub to_haiku_mode : ModeTimings → DisplayMode
unfolding to_haiku_mode_timings
to_haiku_mode m = record {
  timing = to_haiku_mode_timings m;
  virtual_width = m.h_visible;
  virtual_height = m.v_visible;
}

abbrev pub same_bool : Bool → Bool → Bool
same_bool true b = b
same_bool false b = not b

abbrev pub same_flags : Flags → Flags → Bool
same_flags a b =
    same_bool a.interlaced b.interlaced
    && (same_bool a.positive_hsync b.positive_hsync
        && (same_bool a.positive_vsync b.positive_vsync && a.rest == b.rest))

unfoldable pub mode_timings_equal : DisplayTiming → DisplayTiming → Bool
mode_timings_equal a b =
    a.pixel_clock == b.pixel_clock
    && (a.h_display == b.h_display
        && (a.h_sync_start == b.h_sync_start
            && (a.h_sync_end == b.h_sync_end
                && (a.h_total == b.h_total
                    && (a.v_display == b.v_display
                        && (a.v_sync_start == b.v_sync_start
                            && (a.v_sync_end == b.v_sync_end
                                && (a.v_total == b.v_total && same_flags a.flags b.flags))))))))

abbrev pub outside : ℕ → ℕ → ℕ → Bool
outside x low high = ltb x low || ltb high x

unfoldable pub is_display_mode_within_bounds : DisplayMode → DisplayMode → DisplayMode → Bool
is_display_mode_within_bounds mode low high =
    let t = mode.timing in
    let l = low.timing in
    let h = high.timing in
    not (
      outside t.h_display l.h_display h.h_display
      || (outside t.h_sync_start l.h_sync_start h.h_sync_start
          || (outside t.h_sync_end l.h_sync_end h.h_sync_end
              || (outside t.h_total l.h_total h.h_total
                  || (outside t.v_display l.v_display h.v_display
                      || (outside t.v_sync_start l.v_sync_start h.v_sync_start
                          || (outside t.v_sync_end l.v_sync_end h.v_sync_end
                              || (outside t.v_total l.v_total h.v_total
                                  || (outside t.pixel_clock l.pixel_clock h.pixel_clock
                                      || (outside mode.virtual_width low.virtual_width
                                            high.virtual_width
                                          || outside mode.virtual_height low.virtual_height
                                              high.virtual_height))))))))))

-- Timings whose totals are not 0, whose clock is below 2^32 Hz, and whose flags are the three that the
-- mode setting has, have a form for the mode setting, and come back from it as they were.
pub to_haiku-to_nv_kms :
    (t : DisplayTiming)
    → 0 < t.h_total * t.v_total
    → t.pixel_clock * 1000 < 2 ^ 32
    → t.flags.rest ≡ 0
    → Option.map to_haiku_mode_timings (to_nv_kms_mode_timings t) ≡ some t
unfolding to_haiku_mode_timings to_nv_kms_mode_timings calc_refresh_rate
to_haiku-to_nv_kms t totals low plain =
    let divides : (t.h_total * t.v_total == 0) ≡ false = ground (arith, totals) in
    let clock : t.pixel_clock * 1000 % 2 ^ 32 / 1000 ≡ t.pixel_clock = omega (arith, low) in
    let nothing_else : 0 ≡ t.flags.rest = sym plain in
    ap (λ (r : Option ℕ). Option.map to_haiku_mode_timings (Option.map (nv_kms_timings t) r))
      (if_false _ _ divides)
    ∙ ap some
        (λ i. record t { pixel_clock = clock i; flags = record t.flags { rest = nothing_else i } })
