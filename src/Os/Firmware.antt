-- ===== src/Os/Firmware.antt =====
-- Loading firmware in nvidia_gsp/nvidia/os-haiku.cpp. Directories, files and memory are parameters; a text
-- is a list of bytes.
pub mod First
use Prim.Native.Char.{code}
use Prim.Native.String.{String}
use nvidia_haiku.Prelude.{
  ℕ, zero, suc, ◌+◌, ◌-◌, ◌≤◌, ◌<◌, ◌≡◌, ◌≢◌, ◌⊎◌, inl, inr, refl, ap, sym, ◌∙◌, Bool, true, false,
  not, ◌||◌, Option, none, some, none≢some, List, [], ◌∷◌, ◌++◌, length, ltb, if◌then◌else◌,
  if_true, if_false, Bool-cases, Option-cases, arith,
}

abbrev codes : String → List ℕ
codes String.[] = []
codes (String.◌∷◌ c s) = code c ∷ codes s

pub data FirmwareType : Type 0 where
  gsp : FirmwareType
  gsp_log : FirmwareType
  other_firmware : FirmwareType

pub data ChipFamily : Type 0 where
  gh100 : ChipFamily
  ad10x : ChipFamily
  ga10x : ChipFamily
  ga100 : ChipFamily
  tu11x : ChipFamily
  tu10x : ChipFamily
  other_family : ChipFamily

-- The file for each family, or none where the code gives the empty text.
abbrev pub is_ampere : ChipFamily → Option Bool
is_ampere gh100 = some true
is_ampere ad10x = some true
is_ampere ga10x = some true
is_ampere ga100 = some false
is_ampere tu11x = some false
is_ampere tu10x = some false
is_ampere other_family = none

abbrev pub firmware_file : FirmwareType → Option Bool → List ℕ
firmware_file gsp (some true) = codes "/firmware/nvidia/570.86.16/gsp_ga10x.bin"
firmware_file gsp (some false) = codes "/firmware/nvidia/570.86.16/gsp_tu10x.bin"
firmware_file gsp_log (some true) = codes "/firmware/nvidia/570.86.16/gsp_log_ga10x.bin"
firmware_file gsp_log (some false) = codes "/firmware/nvidia/570.86.16/gsp_log_tu10x.bin"
firmware_file gsp none = []
firmware_file gsp_log none = []
firmware_file other_firmware family = []

unfoldable pub nv_firmware_path : FirmwareType → ChipFamily → List ℕ
nv_firmware_path type family = firmware_file type (is_ampere family)

-- What is open: its size, and the bytes that one read gives, none for an error.
pub record OpenFile : Type 0 where
  pub size : ℕ
  pub read : Option (List ℕ)

-- The file that `open` gives for a path, and the longest path with its end.
pub record Files : Type 0 where
  pub open_path : List ℕ → Option OpenFile
  pub path_max : ℕ

-- One round of the loop over the directories, of which one is none where `find_directory` fails.
abbrev pub try_directory : Files → List ℕ → Option (List ℕ) → Option OpenFile
try_directory fs suffix none = none
try_directory fs suffix (some directory) =
    if ltb (fs.path_max - 1) (length directory + length suffix)
    then none
    else fs.open_path (directory ++ suffix)

abbrev pub first_open : Option OpenFile → Option OpenFile → Option OpenFile
first_open none rest = rest
first_open (some file) rest = some file

unfoldable pub open_firmware : Files → List ℕ → List (Option (List ℕ)) → Option OpenFile
open_firmware fs suffix [] = none
open_firmware fs suffix (d ∷ directories) =
    first_open (try_directory fs suffix d) (open_firmware fs suffix directories)

-- A write through null is a crash: the array is cleared before it is looked at.
pub data Firmware : Type 0 where
  not_found : Firmware
  no_memory : Firmware
  crashed : Firmware
  not_read : Firmware
  loaded : List ℕ → Firmware

-- The read, and the check of how much it gave.
abbrev pub check_read : ℕ → Option (List ℕ) → Firmware
check_read size none = not_read
check_read size (some bytes) = if ltb (length bytes) size then not_read else loaded bytes

abbrev pub load : Bool → Option OpenFile → Firmware
load memory none = not_found
load memory (some file) =
    if not memory
    then (if ltb 0 file.size then crashed else no_memory)
    else check_read file.size file.read

-- `nv_get_firmware`, with the four directories and whether there is memory for the file.
unfoldable pub nv_get_firmware :
    Files → Bool → List (Option (List ℕ)) → FirmwareType → ChipFamily → Firmware
nv_get_firmware fs memory directories type family =
    load memory (open_firmware fs (nv_firmware_path type family) directories)
