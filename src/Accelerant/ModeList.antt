-- ===== src/Accelerant/ModeList.antt =====
-- The modes that the accelerant of accelerant/Accelerant.cpp keeps and gives out.
use nvidia_haiku.Prelude.{
  set-append, ◌+◌, ◌≡◌, refl, sym, ap, ◌∙◌, Bool, true, false, Option, none, some, none≢some,
  some-injective, List, [], ◌∷◌, ◌++◌, map, length, length-append, if◌then◌else◌, arith,
}
use nvidia_haiku.Accelerant.Timings.{DisplayMode, ModeTimings, to_haiku_mode}
use nvidia_haiku.Accelerant.Startup.{Started, mode_count, read_modes, get_mode_list}
use mathlib.Core.List.{append-nil, append_assoc}

abbrev pub is_accepted : Option Bool → Bool
is_accepted (some true) = true
is_accepted (some false) = false
is_accepted none = false

-- The modes among the replies that are accepted, in their order.
abbrev pub accepted : (ModeTimings → Option Bool) → List (Option ModeTimings) → List ModeTimings
accepted validate [] = []
accepted validate (none ∷ replies) = accepted validate replies
accepted validate (some m ∷ replies) =
    if is_accepted (validate m) then m ∷ accepted validate replies else accepted validate replies

pub read_modes-accepted :
    (validate : ModeTimings → Option Bool) (replies : List (Option ModeTimings))
    (modes : List ModeTimings) {result : List ModeTimings}
    → read_modes validate replies modes ≡ some result
    → result ≡ modes ++ accepted validate replies
unfolding read_modes
read_modes-accepted validate [] modes e = sym (some-injective e) ∙ sym (append-nil modes)
read_modes-accepted validate (none ∷ replies) modes e = absurd (none≢some e)
read_modes-accepted validate (some m ∷ replies) modes {result} e =
    step (validate m) e (read_modes-accepted validate replies (modes ++ (m ∷ [])))
      (read_modes-accepted validate replies modes)
  where
    step :
        (v : Option Bool)
        → elim v [
          | none ↦ none
          | some true ↦ read_modes validate replies (modes ++ (m ∷ []))
          | some false ↦ read_modes validate replies modes
        ]
          ≡ some result
        → (read_modes validate replies (modes ++ (m ∷ [])) ≡ some result
            → result ≡ (modes ++ (m ∷ [])) ++ accepted validate replies)
        → (read_modes validate replies modes ≡ some result
            → result ≡ modes ++ accepted validate replies)
        → result
          ≡ modes
            ++ (if is_accepted v then m ∷ accepted validate replies else accepted validate replies)
    step none e kept passed = absurd (none≢some e)
    step (some true) e kept passed =
        kept e ∙ append_assoc modes (m ∷ []) (accepted validate replies)
    step (some false) e kept passed = passed e

writes :
    (modes : List ModeTimings) (done rest : List DisplayMode)
    → length rest ≡ length modes
    → get_mode_list (length done) modes (done ++ rest) ≡ done ++ map to_haiku_mode modes
unfolding get_mode_list
writes [] done [] e = refl
writes [] done (r ∷ rest) e = absurd (omega (arith, e))
writes (m ∷ modes) done [] e = absurd (omega (arith, e))
writes (m ∷ modes) done (r ∷ rest) e =
    let t = to_haiku_mode m in
    let shifted = set-append done rest r t ∙ sym (append_assoc done (t ∷ []) rest) in
    ap (get_mode_list (length done + 1) modes) shifted
    ∙ ap (λ n. get_mode_list n modes ((done ++ (t ∷ [])) ++ rest))
        (sym (length-append done (t ∷ [])))
    ∙ writes modes (done ++ (t ∷ [])) rest (omega (arith, e))
    ∙ append_assoc done (t ∷ []) (map to_haiku_mode modes)

-- `GetModeList` on an array with as many places as `ModeCount` says fills each place, with the modes
-- in their order and in Haiku's form.
pub get_mode_list-fills :
    (s : Started) (array : List DisplayMode)
    → length array ≡ mode_count s
    → get_mode_list 0 s.mode_list array ≡ map to_haiku_mode s.mode_list
get_mode_list-fills s array e = writes s.mode_list [] array e
