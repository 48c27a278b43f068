-- ===== src/Device/Examples.antt =====
-- Runs of nvidia_gsp/nvidia/Device.cpp on one device and on two.
use nvidia_haiku.Prelude.{
  ℕ, ◌+◌, ◌*◌, ◌≡◌, refl, inl, inr, Bool, true, false, List, [], ◌∷◌, some, arith, ◌==◌,
}
use nvidia_haiku.Device.{Device, Answers, new_device, start, acquire_ref, open_device}
use nvidia_haiku.Device.System.{Reach, initial, next, opens, IsOpenFor, Reach-IsOpenFor}
use nvidia_haiku.Device.Bars.{Register, decode_bars, regions, first_sized, decode_bars_lem}
use nvidia_haiku.Device.Gpus.{Gpu, open_gpu, counts, settled, close-open_gpu}

abbrev answers : Answers
answers = record {
  msi_count = 1;
  msi_configured = true;
  msi_irq = 40;
  msi_enabled = true;
  handler_installed = true;
  init_adapter = true;
}

abbrev running : Device
running = record {
  open_count = 1;
  init_hardware = true;
  irq = 40;
  handlers = 1;
  msi = true;
  master = true;
}

running-Reach : Reach (record { device = running; handles = 1; unwired = false })
unfolding open_device acquire_ref start
running-Reach = next initial (opens true answers {d = running} (omega arith) (omega arith) refl)

Reach-IsOpenFor_example : IsOpenFor false 1 running
Reach-IsOpenFor_example = Reach-IsOpenFor running-Reach

-- Flag 4 marks a register of 64 bits.
abbrev wide_flag : ℕ → Bool
wide_flag flags = flags == 4

abbrev place : ℕ → ℕ
place bar = 16 + bar * 4

abbrev low : Register
low = record { base = 4096; size = 4096; flags = 0 }

abbrev half : Register
half = record { base = 8192; size = 65536; flags = 4 }

abbrev upper : Register
upper = record { base = 1; size = 0; flags = 0 }

decode_bars_lem_example :
    decode_bars wide_flag place 3 0 (low ∷ half ∷ upper ∷ low ∷ []) []
    ≡ some (
        record { offset = 16; cpu_address = 4096; size = 4096 }
        ∷ record { offset = 20; cpu_address = 4294975488; size = 65536 }
        ∷ record { offset = 28; cpu_address = 4096; size = 4096 }
        ∷ [])
unfolding first_sized regions
decode_bars_lem_example =
    decode_bars_lem wide_flag place 3 0 (low ∷ half ∷ upper ∷ low ∷ []) []
      (inr (refl, inl (refl, refl)))

abbrev gpus : List Gpu
gpus = record { gpu_id = 256; device = running } ∷ record { gpu_id = 512; device = new_device } ∷ []

close-open_gpu_example : counts (settled 512 (open_gpu answers 512 gpus)) ≡ 1 ∷ 0 ∷ []
close-open_gpu_example = close-open_gpu answers 512 gpus (omega arith, (omega arith, tt))
