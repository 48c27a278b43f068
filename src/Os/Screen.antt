-- ===== src/Os/Screen.antt =====
-- `nv_get_screen_info` of nvidia_gsp/nvidia/os-haiku.cpp: the frame buffer that the machine booted with.
use nvidia_haiku.Prelude.{
  ℕ, ◌*◌, ◌<◌, ◌≡◌, ◌⊎◌, inl, inr, ap, Option, none, some, ltb, Bool-cases, arith,
}

-- `frame_buffer_boot_info`.
pub record BootInfo : Type 0 where
  pub physical_frame_buffer : ℕ
  pub width : ℕ
  pub height : ℕ
  pub depth : ℕ
  pub bytes_per_row : ℕ

pub record ScreenInfo : Type 0 where
  pub physical_address : ℕ
  pub fb_width : ℕ
  pub fb_height : ℕ
  pub fb_depth : ℕ
  pub fb_pitch : ℕ
  pub fb_size : ℕ

-- `nv_get_screen_info`. The product is taken to fit the type of the fields.
unfoldable pub nv_get_screen_info : Option BootInfo → ScreenInfo
nv_get_screen_info none = record {
  physical_address = 0;
  fb_width = 0;
  fb_height = 0;
  fb_depth = 0;
  fb_pitch = 0;
  fb_size = 0;
}
nv_get_screen_info (some b) = record {
  physical_address = b.physical_frame_buffer;
  fb_width = b.width;
  fb_height = b.height;
  fb_depth = b.depth;
  fb_pitch = b.bytes_per_row;
  fb_size = b.width * b.bytes_per_row;
}

mul-lt : (a b p : ℕ) → a < b → 0 < p → a * p < b * p
mul-lt a b p h k = grind arith

-- The rows of the frame buffer do not add up to the size that is given, unless the screen is as
-- high as it is wide: on a wider screen the size reaches past the last row, and on a higher one it
-- ends before it.
pub screen_size_wrong :
    (b : BootInfo)
    → 0 < b.bytes_per_row
    → let s = nv_get_screen_info (some b) in
      ((b.width ≡ b.height) × (s.fb_size ≡ s.fb_height * s.fb_pitch))
      ⊎ ((b.height < b.width) × (s.fb_height * s.fb_pitch < s.fb_size))
      ⊎ ((b.width < b.height) × (s.fb_size < s.fb_height * s.fb_pitch))
unfolding nv_get_screen_info
screen_size_wrong b pos = elim (Bool-cases (ltb b.height b.width)) [
  | inl wider ↦
      let h : b.height < b.width = ground (arith, wider) in
      inr (inl (h, mul-lt b.height b.width b.bytes_per_row h pos))
  | inr other ↦ elim (Bool-cases (ltb b.width b.height)) [
    | inl higher ↦
        let h : b.width < b.height = ground (arith, higher) in
        inr (inr (h, mul-lt b.width b.height b.bytes_per_row h pos))
    | inr same ↦
        let e : b.width ≡ b.height = ground (arith, other, same) in
        inl (e, ap (λ (n : ℕ). n * b.bytes_per_row) e)
  ]
]
