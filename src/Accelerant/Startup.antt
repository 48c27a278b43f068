-- ===== src/Accelerant/Startup.antt =====
-- The constructor of the accelerant in accelerant/Accelerant.cpp: the choice of a display and the list of
-- modes, with GetModeList and GetPreferredDisplayMode. What the mode setting driver answers, and the
-- order in which it lists displays and modes, are parameters.
use nvidia_haiku.Prelude.{
  ℕ, zero, suc, ◌+◌, Bool, true, false, not, ◌||◌, Option, none, some, List, [], ◌∷◌, ◌++◌, length,
  ltb, set, if◌then◌else◌,
}
use nvidia_haiku.Accelerant.Timings.{DisplayMode, ModeTimings, to_haiku_mode}

pub record Dynamic : Type 0 where
  pub connected : Bool
  pub edid_valid : Bool

-- A search that ended in an exception, with no display, or with one.
pub data Found : Type 0 where
  raised : Found
  not_found : Found
  found : ℕ → Found

-- `FindConnectedDisplay`: `query` is none where the call fails.
unfoldable pub find_connected_display : (ℕ → Option Dynamic) → List ℕ → Found
find_connected_display query [] = not_found
find_connected_display query (dpy ∷ dpys) =
    let rest = find_connected_display query dpys in
    elim (query dpy) [
      | none ↦ raised
      | some d ↦ if d.connected || d.edid_valid then found dpy else rest
    ]

abbrev pub total_attempts : ℕ
total_attempts = 10

-- The loop over the attempts, with those that are left. What a display answers may change from one
-- attempt to the next.
unfoldable pub attempts : ℕ → ℕ → (ℕ → ℕ → Option Dynamic) → List ℕ → Found
attempts zero i query dpys = not_found
attempts (suc left) i query dpys =
    let rest = attempts left (i + 1) query dpys in
    elim (find_connected_display (query i) dpys) [
      | raised ↦ raised
      | not_found ↦ rest
      | found dpy ↦ found dpy
    ]

-- The loop over the modes, up to the reply that has `end`. An entry is none where the call fails, and
-- `validate` is `ValidateMode`, none where it fails.
unfoldable pub read_modes :
    (ModeTimings → Option Bool)
    → List (Option ModeTimings)
    → List ModeTimings
    → Option (List ModeTimings)
read_modes validate [] modes = some modes
read_modes validate (none ∷ replies) modes = none
read_modes validate (some m ∷ replies) modes =
    let kept = read_modes validate replies (modes ++ (m ∷ [])) in
    let passed = read_modes validate replies modes in
    elim (validate m) [ none ↦ none | some true ↦ kept | some false ↦ passed ]

-- What the accelerant asks for on its way up.
pub record Answers : Type 0 where
  pub num_disps : ℕ
  pub valid_dpys : Option (List ℕ)
  pub query : ℕ → ℕ → Option Dynamic
  pub grabbed : Bool
  pub replies : ℕ → List (Option ModeTimings)
  pub validate : ℕ → ModeTimings → Option Bool

pub record Started : Type 0 where
  pub dpy_id : ℕ
  pub mode_list : List ModeTimings

-- From the display on.
abbrev pub start_modes : Answers → ℕ → Option Started
start_modes a dpy =
    if not a.grabbed then none else elim (read_modes (a.validate dpy) (a.replies dpy) []) [
      | none ↦ none
      | some modes ↦ some (record { dpy_id = dpy; mode_list = modes })
    ]

abbrev pub start_display : Answers → Found → Option Started
start_display a raised = none
start_display a not_found = none
start_display a (found dpy) = start_modes a dpy

-- The constructor; none is an exception.
unfoldable pub construct : Answers → Option Started
construct a = if not (ltb 0 a.num_disps) then none else elim a.valid_dpys [
  | none ↦ none
  | some dpys ↦ start_display a (attempts total_attempts 0 a.query dpys)
]

abbrev pub mode_count : Started → ℕ
mode_count s = length s.mode_list

-- `GetModeList`: the writes into the array from index `i` on.
unfoldable pub get_mode_list : ℕ → List ModeTimings → List DisplayMode → List DisplayMode
get_mode_list i [] array = array
get_mode_list i (m ∷ modes) array = get_mode_list (i + 1) modes (set array i (to_haiku_mode m))

-- `GetPreferredDisplayMode`, over the replies: whether a mode is the preferred one, and the mode.
unfoldable pub get_preferred_display_mode : List (Option (Bool × ModeTimings)) → Option DisplayMode
get_preferred_display_mode [] = none
get_preferred_display_mode (none ∷ replies) = none
get_preferred_display_mode (some (preferred, m) ∷ replies) =
    let rest = get_preferred_display_mode replies in
    if preferred then some (to_haiku_mode m) else rest
