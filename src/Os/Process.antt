-- ===== src/Os/Process.antt =====
-- Of nvidia_gsp/nvidia/os-haiku.cpp, the name of the process and the time. A write past the end of a
-- buffer is none.
use mathlib.Core.Option
use nvidia_haiku.Prelude.{
  ℕ, zero, suc, ◌+◌, ◌-◌, ◌*◌, ◌/◌, ◌%◌, ◌^◌, ◌<◌, ◌≡◌, refl, ap, sym, ◌∙◌, Option, none, some,
  List, [], ◌∷◌, ◌++◌, length, fitted, length-fitted, arith,
}

-- `strncpy` of a text that ends before a character 0: the rest of the `n` characters are 0.
unfoldable pub strncpy : ℕ → List ℕ → List ℕ → Option (List ℕ)
strncpy zero text buf = some buf
strncpy (suc n) text [] = none
strncpy (suc n) [] (b ∷ buf) = Option.map (λ (l : List ℕ). 0 ∷ l) (strncpy n [] buf)
strncpy (suc n) (c ∷ text) (b ∷ buf) = Option.map (λ (l : List ℕ). c ∷ l) (strncpy n text buf)

-- `buf[i] = c`.
unfoldable pub write_at : ℕ → ℕ → List ℕ → Option (List ℕ)
write_at i c [] = none
write_at zero c (b ∷ buf) = some (c ∷ buf)
write_at (suc i) c (b ∷ buf) = Option.map (λ (l : List ℕ). b ∷ l) (write_at i c buf)

-- `len - 1` of 32 bits.
abbrev pub last_index : ℕ → ℕ
last_index len = (len + 2 ^ 32 - 1) % 2 ^ 32

-- The name in the information on a team, none where there is none to get.
abbrev pub info_name : Option (List ℕ) → List ℕ
info_name none = []
info_name (some name) = name

unfoldable pub os_get_current_process_name : Option (List ℕ) → ℕ → List ℕ → Option (List ℕ)
unfolding Option.bind strncpy write_at
os_get_current_process_name info len buf =
    Option.bind (strncpy (last_index len) (info_name info) buf) (write_at (last_index len) 0)

-- `os_get_current_time`: seconds and microseconds, of 32 bits each.
unfoldable pub os_get_current_time : ℕ → ℕ × ℕ
os_get_current_time time = (time / 1000000 % 2 ^ 32, time % 1000000)

strncpy-fitted :
    (front text rest : List ℕ)
    → strncpy (length front) text (front ++ rest) ≡ some (fitted (length front) text ++ rest)
unfolding strncpy
strncpy-fitted [] text rest = refl
strncpy-fitted (b ∷ front) [] rest =
    ap (Option.map (λ (l : List ℕ). 0 ∷ l)) (strncpy-fitted front [] rest)
strncpy-fitted (b ∷ front) (c ∷ text) rest =
    ap (Option.map (λ (l : List ℕ). c ∷ l)) (strncpy-fitted front text rest)

strncpy-past : (n : ℕ) (text buf : List ℕ) → length buf < n → strncpy n text buf ≡ none
unfolding strncpy
strncpy-past zero text buf h = absurd (omega (arith, h))
strncpy-past (suc n) text [] h = refl
strncpy-past (suc n) [] (b ∷ buf) h =
    ap (Option.map (λ (l : List ℕ). 0 ∷ l)) (strncpy-past n [] buf (omega (arith, h)))
strncpy-past (suc n) (c ∷ text) (b ∷ buf) h =
    ap (Option.map (λ (l : List ℕ). c ∷ l)) (strncpy-past n text buf (omega (arith, h)))

write_at-length :
    (front rest : List ℕ) (b c : ℕ)
    → write_at (length front) c (front ++ (b ∷ rest)) ≡ some (front ++ (c ∷ rest))
unfolding write_at
write_at-length [] rest b c = refl
write_at-length (x ∷ front) rest b c =
    ap (Option.map (λ (l : List ℕ). x ∷ l)) (write_at-length front rest b c)

-- The name of the process in a buffer that is at least as long as is said: it is cut or filled with 0
-- to one character less, a 0 follows, and what is after that stays. For a length of 0 the write goes
-- past the end of any buffer of less than 2 ^ 32 - 1 characters.
pub process_name-fitted :
    (info : Option (List ℕ)) (front rest : List ℕ) (b : ℕ)
    → length front + 1 < 2 ^ 32
    → length rest < 2 ^ 32 - 1
    → (os_get_current_process_name info (length front + 1) (front ++ (b ∷ rest))
        ≡ some (fitted (length front) (info_name info) ++ (0 ∷ rest)))
      × (os_get_current_process_name info 0 rest ≡ none)
unfolding os_get_current_process_name Option.bind
process_name-fitted info front rest b h short = (
  ap (λ (n : ℕ). Option.bind (strncpy n (info_name info) (front ++ (b ∷ rest))) (write_at n 0)) last
      ∙ ap (λ (r : Option (List ℕ)). Option.bind r (write_at (length front) 0))
          (strncpy-fitted front (info_name info) (b ∷ rest))
      ∙ ap (λ (n : ℕ). write_at n 0 (fitted (length front) (info_name info) ++ (b ∷ rest)))
          (sym (length-fitted (length front) (info_name info)))
      ∙ write_at-length (fitted (length front) (info_name info)) rest b 0,
  ap (λ (r : Option (List ℕ)). Option.bind r (write_at (last_index 0) 0))
      (strncpy-past (last_index 0) (info_name info) rest (omega (arith, short))),
)
  where
    last : last_index (length front + 1) ≡ length front
    last = omega (arith, h)

-- The seconds and microseconds are those of the time, up to 2 ^ 32 seconds.
pub current_time-exact :
    (time : ℕ)
    → time < 2 ^ 32 * 1000000
    → ((os_get_current_time time).0 * 1000000 + (os_get_current_time time).1 ≡ time)
      × ((os_get_current_time time).1 < 1000000)
unfolding os_get_current_time
current_time-exact time h = (omega (arith, h), omega arith)
