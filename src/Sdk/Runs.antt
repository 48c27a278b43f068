-- ===== src/Sdk/Runs.antt =====
-- Runs of the calls of nvrm_cpp_sdk/NvRmApi.cpp and nvrm_cpp_sdk/NvRmDevice.cpp.
use nvidia_haiku.Prelude.{ℕ, zero, suc, ◌<◌, ◌≡◌, inl, inr, refl, none, some, [], ◌∷◌, arith}
use nvidia_haiku.Sdk.Retry.{
  Reply, returned, eintr, eagain, IsTransient, IsFinal, nv_rm_ioctl, after, nv_rm_ioctl-first,
}
use nvidia_haiku.Sdk.Calls.{answered, Holdings, World, done, Leaves, nv_rm_call}
use nvidia_haiku.Sdk.Device.{Classes, Api, Device, Mapping, map_device_memory, delete_mapping}
use nvidia_haiku.Sdk.Device.Balanced.{
  with_mapping, AtMostOneLinear, map_device_memory-Leaves, mapped_given_back,
}

-- A file on which the first call fails with EINTR, the second with EAGAIN, and the others return.
abbrev reply_at : ℕ → Reply
reply_at zero = Reply.failed eintr
reply_at (suc zero) = Reply.failed eagain
reply_at (suc (suc calls)) = returned 5

abbrev third : ℕ → Reply × ℕ
third calls = (reply_at calls, suc calls)

before_third : (i : ℕ) → i < 2 → IsTransient (third (after third i 0)).0
unfolding after
before_third zero below = inl refl
before_third (suc zero) below = inr refl
before_third (suc (suc i)) below = absurd (omega (arith, below))

third_returns : IsFinal (third (after third 2 0)).0
unfolding after
third_returns = inl (5, refl)

nv_rm_ioctl-first_example :
    (nv_rm_ioctl third 7 0 ≡ some (third (after third 2 0))) × (nv_rm_ioctl third 1 0 ≡ none)
nv_rm_ioctl-first_example = nv_rm_ioctl-first third 2 4 1 0 before_third third_returns (omega arith)

abbrev classes : Classes
classes = record { root_client = 65; device_0 = 128; subdevice_0 = 8320 }

abbrev api : Api
api = record { fd = 3; client = 17 }

abbrev nothing_held : Holdings
nothing_held = record { files = []; objects = []; linears = []; areas = []; surfaces = [] }

-- The device is given, the subdevice refused, and the device freed.
abbrev refused_subdevice : World
refused_subdevice = record {
  script = answered 0 18 ∷ (answered 81 0 ∷ (answered 0 0 ∷ []));
  held = nothing_held;
}

abbrev device : Device
device = record { device = 18; subdevice = 19 }

abbrev maps : World
maps = record {
  script = answered 0 4 ∷ (answered 0 700 ∷ (answered 0 31 ∷ []));
  held = nothing_held;
}

abbrev mapping : Mapping
mapping = record { h_memory = 20; linear_address = 700; flags = 0; area = 31 }

abbrev mapped : World
mapped = record { script = []; held = with_mapping nothing_held mapping }

it_maps : map_device_memory api device 20 0 4096 0 maps ≡ (done mapping, mapped)
unfolding map_device_memory nv_rm_call
it_maps = refl

map_device_memory-Leaves_example :
    Leaves
      (with_mapping nothing_held)
      (AtMostOneLinear nothing_held)
      (λ h. h ≡ nothing_held)
      (map_device_memory api device 20 0 4096 0 maps)
map_device_memory-Leaves_example = map_device_memory-Leaves api device 20 0 4096 0 maps

mapped_given_back_example :
    delete_mapping api device mapping (record mapped { script = answered 0 0 ∷ [] })
    ≡ (done 0, record maps { script = [] })
mapped_given_back_example =
    mapped_given_back api device 20 0 4096 0 0 maps mapped mapping [] it_maps
