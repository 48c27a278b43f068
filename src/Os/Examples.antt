-- ===== src/Os/Examples.antt =====
-- Runs of nvidia_gsp/nvidia/os-haiku.cpp.
use nvidia_haiku.Prelude.{
  List, Option, length, ℕ, ◌+◌, ◌*◌, ◌≤◌, ◌<◌, ◌≡◌, ◌≢◌, ◌⊎◌, refl, true, false, Option, none, some,
  some-injective, List, [], ◌∷◌, length, get_elem?, if◌then◌else◌, ◌==◌, ap, arith,
}
use nvidia_haiku.Pool.Group.{Block, done}
use nvidia_haiku.Pool.State.{init}
use nvidia_haiku.Pool.System.{Reach, initial}
use nvidia_haiku.Os.Memory.{Heap, os_alloc_mem, os_alloc_mem-Reach}
use nvidia_haiku.Os.Spinlock.{Cpu, Code, skip, locked, run, sections_nest}
use nvidia_haiku.Os.Pages
use nvidia_haiku.Os.Screen.{BootInfo}
use nvidia_haiku.Os.Pci.{PciInfo}
use nvidia_haiku.Os.Firmware.{
  Files, OpenFile, gsp, tu11x, nv_firmware_path, nv_get_firmware, not_found, loaded,
}
use nvidia_haiku.Os.Firmware.First.{NoneOpens, OpensFirst, IsShort, nv_get_firmware-first}

abbrev heap : Heap
heap = record { calloc = λ size. some (record { address = 1; size = size }); freed = [] }

abbrev block : Block
block = record { address = 1; size = 24 }

os_alloc_mem-Reach_example :
    Reach (record { pool = init; active = [] })
    × (((true ≡ true) × (some block ≡ none))
        ⊎ ((b : Block) × (some block ≡ some b) × (24 ≤ b.size)))
unfolding os_alloc_mem
os_alloc_mem-Reach_example = os_alloc_mem-Reach true heap 24 (some block) initial honest returns
  where
    honest : (n : ℕ) (b : Block) → heap.calloc n ≡ some b → n ≤ b.size
    honest n b e = omega (arith, ap (λ (x : Block). x.size) (some-injective e))

    returns : os_alloc_mem true heap 24 init ≡ done (init, some block)
    returns = refl

abbrev code : Code
code = locked 1 (locked 2 skip skip) (locked 2 skip skip)

abbrev cpu : Cpu
cpu = record { interrupts = true; held = 9 ∷ []; maintained = 5 }

sections_nest_example : run code cpu ≡ some (record cpu { maintained = 5 + 2 })
sections_nest_example = sections_nest code cpu (refl, (refl, tt, tt), (refl, tt, tt))

abbrev kernel : Pages.Kernel
kernel = record {
  create_area = λ bytes. some (7, 65536);
  memory_map = λ address. some (1048576 + address);
}

pages_mapped_example :
    (result : List ℕ) × let a : Pages.Alloc = record {
      area = 7;
      address = 65536;
      cache_type = 1;
      phys_base = 1114112;
    } in
      (Pages.nv_alloc_pages kernel true 2 false 1 (0 ∷ 0 ∷ []) ≡ Pages.allocated a result)
      × ((i : ℕ) → i < 2 → get_elem? result i ≡ some (1114112 + i * Pages.page_size))
      × ((i offset : ℕ)
          → i < 2
          → Pages.nv_alloc_user_mapping kernel a i offset
            ≡ some (1114112 + i * Pages.page_size + offset))
pages_mapped_example =
    Pages.pages_mapped kernel 2 false 1 (0 ∷ 0 ∷ []) 7 65536 1114112 (omega arith) refl refl
      (λ i h. ap some (omega arith))

abbrev boot : BootInfo
boot = record {
  physical_frame_buffer = 4096;
  width = 1920;
  height = 1080;
  depth = 32;
  bytes_per_row = 7680;
}

abbrev gpu : PciInfo
gpu = record { bus = 1; device = 0; function = 0; vendor_id = 4318; device_id = 9476 }

abbrev infos : List PciInfo
infos = record gpu { bus = 0 } ∷ gpu ∷ []

abbrev files : Files
files = record {
  open_path = λ path.
      if length path == 43 then some (record { size = 2; read = some (1 ∷ 2 ∷ []) }) else none;
  path_max = 1024;
}

abbrev directories : List (Option (List ℕ))
directories = none ∷ some (47 ∷ []) ∷ some (47 ∷ 97 ∷ []) ∷ none ∷ []

nv_get_firmware-first_example :
    ((nv_get_firmware files true directories gsp tu11x ≡ not_found)
      × NoneOpens files (nv_firmware_path gsp tu11x) directories)
    ⊎ ((file : OpenFile) × OpensFirst files (nv_firmware_path gsp tu11x) directories file
        × (((true ≡ true)
              × (bytes : List ℕ) × (nv_get_firmware files true directories gsp tu11x ≡ loaded bytes)
              × (file.read ≡ some bytes)
              × (file.size ≤ length bytes))
            ⊎ (((bytes : List ℕ) → nv_get_firmware files true directories gsp tu11x ≢ loaded bytes)
                × ((true ≡ false) ⊎ IsShort file))))
nv_get_firmware-first_example = nv_get_firmware-first files true directories gsp tu11x
