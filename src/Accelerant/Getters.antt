-- ===== src/Accelerant/Getters.antt =====
-- What accelerant/Accelerant.cpp tells of the display: GetDisplayMode, GetFrameBufferConfig and
-- GetEdidInfo, with the exceptions that they throw. A write past the end of the caller's memory is none.
use mathlib.Core.Option
use nvidia_haiku.Prelude.{
  ℕ, zero, suc, min, ◌≡◌, refl, ap, ◌∙◌, Bool, true, false, Option, none, some, List, [], ◌∷◌, ◌++◌,
  length, replicate, fitted, ◌==◌, if◌then◌else◌, arith,
}
use nvidia_haiku.Sdk.Calls.{Error, errno}
use nvidia_haiku.Accelerant.Timings.{ModeTimings, DisplayMode, to_haiku_mode}

pub data Result (A : Type 0) : Type 0 where
  gives : A → Result A
  throws : Error → Result A

-- ENOENT and B_ERROR, which system headers define.
pub record Numbers : Type 0 where
  pub enoent : ℕ
  pub b_error : ℕ

-- `GetDisplayMode`: before the first mode is set, the current one is all 0.
unfoldable pub get_display_mode : Numbers → ModeTimings → Result DisplayMode
get_display_mode c current =
    if current.h_visible == 0 then throws (errno c.enoent) else gives (to_haiku_mode current)

pub record FrameBuffer : Type 0 where
  pub bits : ℕ
  pub bytes_per_row : ℕ

-- `GetFrameBufferConfig`, of a frame buffer that may not be set.
unfoldable pub get_frame_buffer_config : Numbers → Option FrameBuffer → Result FrameBuffer
get_frame_buffer_config c none = throws (errno c.enoent)
get_frame_buffer_config c (some b) = gives b

unfoldable pub memset : ℕ → List ℕ → Option (List ℕ)
memset zero info = some info
memset (suc n) [] = none
memset (suc n) (b ∷ info) = Option.map (λ (l : List ℕ). 0 ∷ l) (memset n info)

-- A read past the end of the buffer is none as well.
unfoldable pub memcpy : ℕ → List ℕ → List ℕ → Option (List ℕ)
memcpy zero buffer info = some info
memcpy (suc n) [] info = none
memcpy (suc n) (c ∷ buffer) [] = none
memcpy (suc n) (c ∷ buffer) (b ∷ info) = Option.map (λ (l : List ℕ). c ∷ l) (memcpy n buffer info)

-- What the query of the display's state answers.
pub data Reply : Type 0 where
  failed : ℕ → Reply
  answered : (edid_valid : Bool) → (edid : List ℕ) → Reply

-- `GetEdidInfo`: the version that it stores, or what it throws, and the caller's memory after it.
unfoldable pub get_edid_info : Numbers → Reply → ℕ → List ℕ → Option (Result ℕ × List ℕ)
unfolding Option.bind memset memcpy
get_edid_info c (failed n) size info = some (throws (errno n), info)
get_edid_info c (answered false edid) size info = some (throws (errno c.b_error), info)
get_edid_info c (answered true edid) size info =
    Option.map (λ (l : List ℕ). (gives 1, l))
      (Option.bind (memset size info) (memcpy (min size (length edid)) edid))

memset-front :
    (front rest : List ℕ)
    → memset (length front) (front ++ rest) ≡ some (replicate (length front) 0 ++ rest)
unfolding memset
memset-front [] rest = refl
memset-front (b ∷ front) rest = ap (Option.map (λ (l : List ℕ). 0 ∷ l)) (memset-front front rest)

filled : (n : ℕ) → replicate n 0 ≡ fitted n []
filled zero = refl
filled (suc n) = ap (λ (l : List ℕ). 0 ∷ l) (filled n)

memcpy-fitted :
    (k n : ℕ) (edid rest : List ℕ)
    → k ≡ min n (length edid)
    → memcpy k edid (replicate n 0 ++ rest) ≡ some (fitted n edid ++ rest)
unfolding memcpy
memcpy-fitted zero zero edid rest e = refl
memcpy-fitted zero (suc n) [] rest e = ap (λ (l : List ℕ). some (l ++ rest)) (filled (suc n))
memcpy-fitted zero (suc n) (c ∷ edid) rest e = absurd (omega (arith, e))
memcpy-fitted (suc k) zero edid rest e = absurd (omega (arith, e))
memcpy-fitted (suc k) (suc n) [] rest e = absurd (omega (arith, e))
memcpy-fitted (suc k) (suc n) (c ∷ edid) rest e =
    ap (Option.map (λ (l : List ℕ). c ∷ l)) (memcpy-fitted k n edid rest (omega (arith, e)))

-- A display with an EDID gives it to a caller with enough memory: it is cut to the size that the caller
-- asks for, or filled up to that with 0, and what is after stays. A display without one gives B_ERROR,
-- and a query that fails its error; either leaves all of the caller's memory as it was.
pub edid_info-fitted :
    (c : Numbers) (edid front rest : List ℕ) (n : ℕ)
    → (get_edid_info c (answered true edid) (length front) (front ++ rest)
        ≡ some (gives 1, fitted (length front) edid ++ rest))
      × (get_edid_info c (answered false edid) (length front) (front ++ rest)
          ≡ some (throws (errno c.b_error), front ++ rest))
      × (get_edid_info c (failed n) (length front) (front ++ rest)
          ≡ some (throws (errno n), front ++ rest))
unfolding get_edid_info Option.bind
edid_info-fitted c edid front rest n = (
  ap
        (λ (r : Option (List ℕ)).
          Option.map (λ (l : List ℕ). (gives 1, l))
            (Option.bind r (memcpy (min (length front) (length edid)) edid)))
        (memset-front front rest)
      ∙ ap (Option.map (λ (l : List ℕ). (gives 1, l)))
          (memcpy-fitted (min (length front) (length edid)) (length front) edid rest refl),
  refl,
  refl,
)
