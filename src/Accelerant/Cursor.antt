-- ===== src/Accelerant/Cursor.antt =====
-- The sizes of `NvKmsBitmap` in accelerant/NvKmsBitmap.{h,cpp}, and `NvAccelerant::SetCursorBitmap`
-- of accelerant/Accelerant.cpp.
use native.Mathlib.Nat.{suc-mul, mul-le-mul_right}
use nvidia_haiku.Prelude.{
  ap, ◌∙◌, get_elem?, ℕ, zero, suc, ◌+◌, ◌-◌, ◌*◌, ◌/◌, ◌%◌, ◌^◌, ◌≤◌, ◌<◌, ◌≡◌, ◌⊎◌, inl, inr,
  refl, sym, subst, ◌||◌, List, [], ◌∷◌, Option, none, some, arith, ltb, if◌then◌else◌,
  Option-cases, none≢some, some-injective,
}

-- `AlignUp`, over a 64-bit `size_t`.
unfoldable pub align_up : ℕ → ℕ → ℕ
align_up val align = (val + (align - 1)) % 2 ^ 64 / align * align % 2 ^ 64

pub record Bitmap : Type 0 where
  pub width : ℕ
  pub height : ℕ
  pub bytes_per_row : ℕ

-- The sizes that the constructor sets: `4*width` and `fBytesPerRow` are of 32 bits.
unfoldable pub new_bitmap : ℕ → ℕ → Bitmap
unfolding align_up
new_bitmap width height = record {
  width = width;
  height = height;
  bytes_per_row = align_up (4 * width % 2 ^ 32) 256 % 2 ^ 32;
}

-- `uint32 size = fBytesPerRow*height`.
unfoldable pub bitmap_size : Bitmap → ℕ
bitmap_size b = b.bytes_per_row * b.height % 2 ^ 32

-- The size of the memory that is allocated and mapped.
unfoldable pub memory_size : ℕ → Bitmap → ℕ
unfolding align_up bitmap_size
memory_size page_size b = align_up (bitmap_size b) page_size

-- The side of the square that a cursor is drawn in; nothing where the code raises an error.
unfoldable pub cursor_size : ℕ → ℕ → Option ℕ
cursor_size width height =
    if ltb 256 width || ltb 256 height
    then none
    else if ltb 128 width || ltb 128 height
    then some 256
    else if ltb 64 width || ltb 64 height
    then some 128
    else if ltb 32 width || ltb 32 height
    then some 64
    else some 32

-- A copy of `length` bytes from `source` in the caller's image to `offset` in the bitmap.
pub record Copy : Type 0 where
  pub offset : ℕ
  pub source : ℕ
  pub length : ℕ

-- The loop over the lines, from line `y` on.
unfoldable pub copy_lines : (width row source_row remaining y : ℕ) → List Copy
copy_lines width row source_row zero y = []
copy_lines width row source_row (suc n) y =
    record { offset = y * row; source = y * source_row; length = 4 * width }
    ∷ copy_lines width row source_row n (y + 1)

unfoldable pub set_cursor_bitmap : (width height bytes_per_row : ℕ) → Option (Bitmap × List Copy)
unfolding cursor_size new_bitmap copy_lines
set_cursor_bitmap width height bytes_per_row = elim (cursor_size width height) [
  | none ↦ none
  | some side ↦
      let cursor = new_bitmap side side in
      some (cursor, copy_lines width cursor.bytes_per_row bytes_per_row height 0)
]

-- The sizes that the hardware has.
abbrev pub IsSide : ℕ → Type 0
IsSide side = (side ≡ 32) ⊎ (side ≡ 64) ⊎ (side ≡ 128) ⊎ (side ≡ 256)

-- A cursor of up to 256 by 256 gets the least of the four sizes that holds it.
pub cursor_size_least :
    (width height : ℕ) {side : ℕ}
    → cursor_size width height ≡ some side
    → IsSide side
      × (width ≤ side)
      × (height ≤ side)
      × ((side ≡ 32) ⊎ (side < 2 * width) ⊎ (side < 2 * height))
unfolding cursor_size
cursor_size_least width height e = ground (arith, e)

-- Every copy ends within so many bytes, and in its own line.
abbrev pub AllWithin : (row size : ℕ) → List Copy → Type 0
AllWithin row size [] = Unit {0}
AllWithin row size (c ∷ cs) =
    ((c.length ≤ row) × (c.offset + c.length ≤ size)) × AllWithin row size cs

copy_lines-AllWithin :
    (width row source_row n y size : ℕ)
    → 4 * width ≤ row
    → y * row + n * row ≤ size
    → AllWithin row size (copy_lines width row source_row n y)
unfolding copy_lines
copy_lines-AllWithin width row source_row zero y size h room = tt
copy_lines-AllWithin width row source_row (suc n) y size h room = (
  (h, omega (arith, h, room, suc-mul n row)),
  copy_lines-AllWithin width row source_row n (y + 1) size h
      (omega (arith, room, suc-mul n row, suc-mul y row)),
)

-- The copy of line `y`, to its line of the bitmap and from its line of the caller's image.
abbrev pub line_copy : (width row source_row y : ℕ) → Copy
line_copy width row source_row y = record {
  offset = y * row;
  source = y * source_row;
  length = 4 * width;
}

-- What a list of copies has at a place: the copy of that line, and nothing from `n` lines on.
abbrev pub IsLine : (width row source_row n y k : ℕ) → Option Copy → Type 0
IsLine width row source_row n y k c =
    ((k < n) × (c ≡ some (line_copy width row source_row (y + k)))) ⊎ ((n ≤ k) × (c ≡ none))

copy_lines-IsLine :
    (width row source_row n y k : ℕ)
    → IsLine width row source_row n y k (get_elem? (copy_lines width row source_row n y) k)
unfolding copy_lines
copy_lines-IsLine width row source_row zero y k = inr (omega arith, refl)
copy_lines-IsLine width row source_row (suc n) y zero =
    inl (omega arith, ap (λ z. some (line_copy width row source_row z)) (omega arith))
copy_lines-IsLine width row source_row (suc n) y (suc k) =
    elim (copy_lines-IsLine width row source_row n (y + 1) k) [
      | inl (h, e) ↦
          inl
            (omega (arith, h), e ∙ ap (λ z. some (line_copy width row source_row z)) (omega arith))
      | inr (h, e) ↦ inr (omega (arith, h), e)
    ]

-- The lines of a bitmap of one of the four sizes hold its pixels, and its memory holds its lines.
record Holds (side : ℕ) : Type 0 where
  line : 4 * side ≤ (new_bitmap side side).bytes_per_row
  lines : side * (new_bitmap side side).bytes_per_row ≡ bitmap_size (new_bitmap side side)
  memory : bitmap_size (new_bitmap side side) ≤ memory_size 4096 (new_bitmap side side)

IsSide-Holds : (side : ℕ) → IsSide side → Holds side
unfolding new_bitmap bitmap_size memory_size align_up
IsSide-Holds side (inl q) =
    subst Holds (sym q) (record { line = omega arith; lines = refl; memory = omega arith })
IsSide-Holds side (inr (inl q)) =
    subst Holds (sym q) (record { line = omega arith; lines = refl; memory = omega arith })
IsSide-Holds side (inr (inr (inl q))) =
    subst Holds (sym q) (record { line = omega arith; lines = refl; memory = omega arith })
IsSide-Holds side (inr (inr (inr q))) =
    subst Holds (sym q) (record { line = omega arith; lines = refl; memory = omega arith })

-- `SetCursorBitmap` writes only within the memory of the new bitmap, for pages of 4096 bytes. Its copies
-- are one for each line of the image, from that line of the caller's image to that line of the bitmap,
-- with the pixels of the image's width, which a line of the bitmap holds.
pub set_cursor_bitmap-AllWithin :
    (width height bytes_per_row k : ℕ) {b : Bitmap} {copies : List Copy}
    → set_cursor_bitmap width height bytes_per_row ≡ some (b, copies)
    → AllWithin b.bytes_per_row (bitmap_size b) copies
      × (bitmap_size b ≤ memory_size 4096 b)
      × IsLine width b.bytes_per_row bytes_per_row height 0 k (get_elem? copies k)
unfolding set_cursor_bitmap
set_cursor_bitmap-AllWithin width height bytes_per_row k {b} {copies} e =
    elim (Option-cases (cursor_size width height)) [
      | inl q ↦ absurd (none≢some (rw (q, set_cursor_bitmap) at e))
      | inr (side, q) ↦
          let (is_side, wide, high, _) = cursor_size_least width height q in
          let holds = IsSide-Holds side is_side in
          let row = (new_bitmap side side).bytes_per_row in
          subst
            (λ (r : Bitmap × List Copy).
              AllWithin r.0.bytes_per_row (bitmap_size r.0) r.1
              × (bitmap_size r.0 ≤ memory_size 4096 r.0)
              × IsLine width r.0.bytes_per_row bytes_per_row height 0 k (get_elem? r.1 k))
            (some-injective (rw (q, set_cursor_bitmap) at e))
            (
              copy_lines-AllWithin width row bytes_per_row height 0
                  (bitmap_size (new_bitmap side side)) (omega (arith, wide, holds.line))
                  (omega (arith, mul-le-mul_right row high, holds.lines)),
              holds.memory,
              copy_lines-IsLine width row bytes_per_row height 0 k,
            )
    ]
