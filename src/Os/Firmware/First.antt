-- ===== src/Os/Firmware/First.antt =====
-- Where the firmware that nvidia_gsp/nvidia/os-haiku.cpp gives comes from.
use nvidia_haiku.Prelude.{
  ℕ, ◌+◌, ◌-◌, ◌≤◌, ◌<◌, ◌≡◌, ◌≢◌, ◌⊎◌, inl, inr, refl, ap, sym, ◌∙◌, Bool, true, false, Option,
  none, some, none≢some, List, [], ◌∷◌, ◌++◌, length, ltb, if◌then◌else◌, if_true, if_false,
  Bool-cases, Option-cases, arith,
}
use nvidia_haiku.Os.Firmware.{
  FirmwareType, ChipFamily, nv_firmware_path, OpenFile, Files, try_directory, first_open,
  open_firmware, not_found, no_memory, crashed, not_read, loaded, check_read, load, nv_get_firmware,
}

abbrev pub NoneOpens : Files → List ℕ → List (Option (List ℕ)) → Type 0
NoneOpens fs suffix [] = Unit {0}
NoneOpens fs suffix (d ∷ ds) = (try_directory fs suffix d ≡ none) × NoneOpens fs suffix ds

-- The first directory with a file.
pub record OpensFirst (fs : Files) (suffix : List ℕ) (directories : List (Option (List ℕ)))
    (file : OpenFile) : Type 0 where
  pub before : List (Option (List ℕ))
  pub directory : List ℕ
  pub behind : List (Option (List ℕ))
  pub split : directories ≡ before ++ (some directory ∷ behind)
  pub others : NoneOpens fs suffix before
  pub fits : length directory + length suffix ≤ fs.path_max - 1
  pub opens : fs.open_path (directory ++ suffix) ≡ some file

try_directory-opens :
    (fs : Files) (suffix : List ℕ) (d : Option (List ℕ)) (ds : List (Option (List ℕ)))
    {file : OpenFile}
    → try_directory fs suffix d ≡ some file
    → OpensFirst fs suffix (d ∷ ds) file
try_directory-opens fs suffix none ds e = absurd (none≢some e)
try_directory-opens fs suffix (some p) ds e =
    elim (Bool-cases (ltb (fs.path_max - 1) (length p + length suffix))) [
      | inl long ↦ absurd (none≢some (sym (if_true _ _ long) ∙ e))
      | inr short ↦ record {
        before = [];
        directory = p;
        behind = ds;
        split = refl;
        others = tt;
        fits = ground (arith, short);
        opens = sym (if_false _ _ short) ∙ e;
      }
    ]

-- A file is opened in the first of the directories that exists, leaves room for the path and has a file
-- that opens, and in no other; where there is none, nothing is opened.
pub open_firmware-first :
    (fs : Files) (suffix : List ℕ) (directories : List (Option (List ℕ)))
    → ((open_firmware fs suffix directories ≡ none) × NoneOpens fs suffix directories)
      ⊎ ((file : OpenFile) × (open_firmware fs suffix directories ≡ some file)
          × OpensFirst fs suffix directories file)
unfolding open_firmware
open_firmware-first fs suffix [] = inl (refl, tt)
open_firmware-first fs suffix (d ∷ ds) = elim (Option-cases (try_directory fs suffix d)) [
  | inl e ↦ elim (open_firmware-first fs suffix ds) [
    | inl f ↦ inl (ap (λ o. first_open o (open_firmware fs suffix ds)) e ∙ f.0, (e, f.1))
    | inr f ↦ inr (
      f.0,
      ap (λ o. first_open o (open_firmware fs suffix ds)) e ∙ f.1,
      record {
        before = d ∷ f.2.before;
        directory = f.2.directory;
        behind = f.2.behind;
        split = ap (λ l. d ∷ l) f.2.split;
        others = (e, f.2.others);
        fits = f.2.fits;
        opens = f.2.opens;
      },
    )
  ]
  | inr e ↦ inr (
    e.0,
    ap (λ o. first_open o (open_firmware fs suffix ds)) e.1,
    try_directory-opens fs suffix d ds e.1,
  )
]

abbrev pub IsShort : OpenFile → Type 0
IsShort file =
    (file.read ≡ none) ⊎ ((bytes : List ℕ) × (file.read ≡ some bytes) × (length bytes < file.size))

not_found≢loaded : {bytes : List ℕ} → not_found ≢ loaded bytes
not_found≢loaded e = cc

no_memory≢loaded : {bytes : List ℕ} → no_memory ≢ loaded bytes
no_memory≢loaded e = cc

crashed≢loaded : {bytes : List ℕ} → crashed ≢ loaded bytes
crashed≢loaded e = cc

not_read≢loaded : {bytes : List ℕ} → not_read ≢ loaded bytes
not_read≢loaded e = cc

load-cases :
    (memory : Bool) (file : OpenFile)
    → ((memory ≡ true)
        × (bytes : List ℕ) × (load memory (some file) ≡ loaded bytes)
        × (file.read ≡ some bytes)
        × (file.size ≤ length bytes))
      ⊎ (((bytes : List ℕ) → load memory (some file) ≢ loaded bytes)
          × ((memory ≡ false) ⊎ IsShort file))
load-cases false file = inr (λ bytes. fails (ltb 0 file.size) bytes, inl refl)
  where
    fails : (b : Bool) (bytes : List ℕ) → (if b then crashed else no_memory) ≢ loaded bytes
    fails true bytes e = crashed≢loaded e
    fails false bytes e = no_memory≢loaded e
load-cases true file = read file.read refl
  where
    whole :
        (b : Bool) (bytes : List ℕ)
        → file.read ≡ some bytes
        → ltb (length bytes) file.size ≡ b
        → ((true ≡ true)
            × (bs : List ℕ) × ((if b then not_read else loaded bytes) ≡ loaded bs)
            × (file.read ≡ some bs)
            × (file.size ≤ length bs))
          ⊎ (((bs : List ℕ) → (if b then not_read else loaded bytes) ≢ loaded bs)
              × ((true ≡ false) ⊎ IsShort file))
    whole true bytes e l = inr (λ bs f. not_read≢loaded f, inr (inr (bytes, e, ground (arith, l))))
    whole false bytes e l = inl (refl, bytes, refl, e, ground (arith, l))

    read :
        (r : Option (List ℕ))
        → file.read ≡ r
        → ((true ≡ true)
            × (bs : List ℕ) × (check_read file.size r ≡ loaded bs)
            × (file.read ≡ some bs)
            × (file.size ≤ length bs))
          ⊎ (((bs : List ℕ) → check_read file.size r ≢ loaded bs) × ((true ≡ false) ⊎ IsShort file))
    read none e = inr (λ bs f. not_read≢loaded f, inr (inl e))
    read (some bytes) e = whole (ltb (length bytes) file.size) bytes e refl

-- Firmware is taken from the first of the directories that exists, leaves room for the path and has a
-- file there that opens. What is given is all that was read, at least as long as the file, with memory
-- for it; with no memory or a read that fails or is short nothing is given, and where no directory has
-- the file it is not found.
pub nv_get_firmware-first :
    (fs : Files) (memory : Bool) (directories : List (Option (List ℕ))) (type : FirmwareType)
    (family : ChipFamily)
    → ((nv_get_firmware fs memory directories type family ≡ not_found)
        × NoneOpens fs (nv_firmware_path type family) directories)
      ⊎ ((file : OpenFile) × OpensFirst fs (nv_firmware_path type family) directories file
          × (((memory ≡ true)
                × (bytes : List ℕ) × (nv_get_firmware fs memory directories type family
                    ≡ loaded bytes)
                × (file.read ≡ some bytes)
                × (file.size ≤ length bytes))
              ⊎ (((bytes : List ℕ)
                    → nv_get_firmware fs memory directories type family ≢ loaded bytes)
                  × ((memory ≡ false) ⊎ IsShort file))))
unfolding nv_get_firmware
nv_get_firmware-first fs memory directories type family =
    elim (open_firmware-first fs (nv_firmware_path type family) directories) [
      | inl f ↦ inl (ap (load memory) f.0, f.1)
      | inr f ↦ inr (
        f.0,
        f.2,
        elim (load-cases memory f.0) [
          | inl l ↦ inl (l.0, l.1, ap (load memory) f.1 ∙ l.2, l.3, l.4)
          | inr l ↦ inr (λ bytes e. l.0 bytes (ap (load memory) (sym f.1) ∙ e), l.1)
        ],
      )
    ]
