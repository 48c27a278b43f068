-- ===== src/Sdk/Device.antt =====
-- What nvrm_cpp_sdk makes out of several calls: `NvRmApi` of NvRmApi.{h,cpp}, and `NvRmDevice` of
-- NvRmDevice.{h,cpp} with its memory mappings and the objects that it passes on by file descriptor.
pub mod Balanced
use nvidia_haiku.Prelude.{
  ℕ, zero, suc, ◌+◌, ◌≡◌, ◌⊎◌, inl, inr, refl, Bool, true, false, List, [], ◌∷◌, ◌==◌,
  if◌then◌else◌,
}
use nvidia_haiku.Sdk.Calls.{
  Answer, failed, answered, ControlCommand, export_object_to_fd, import_object_from_fd, haiku_map,
  Holdings, World, Outcome, done, raised, aborted, Call, nv_rm_call, and_then, destructed,
  on_exception, alloc, control, map_memory, unmap_memory, open_asserted, open_checked, close,
  delete_object, without,
}

-- NV01_ROOT_CLIENT, NV01_DEVICE_0 and NV20_SUBDEVICE_0.
pub record Classes : Type 0 where
  pub root_client : ℕ
  pub device_0 : ℕ
  pub subdevice_0 : ℕ

pub record Api : Type 0 where
  pub fd : ℕ
  pub client : ℕ

-- `NvRmApi()`: the root of the first object is 0. An exception destroys the members.
unfoldable pub new_api : Classes → Call Api
unfolding nv_rm_call
new_api c w = and_then (open_asserted w) λ fd w1.
    and_then (on_exception (close fd) (alloc 0 c.root_client 0 w1))
      λ client w2. (done (record { fd = fd; client = client }), w2)

-- The destructor that the members give `NvRmApi`: in the opposite order, so that the client is freed
-- while the file is open. A destructor that raises ends the program.
abbrev pub delete_api : Api → Call ℕ
delete_api a w = and_then (destructed (delete_object a.client a.client) w) λ _ w1. close a.fd w1

pub record Device : Type 0 where
  pub device : ℕ
  pub subdevice : ℕ

-- `NvRmDevice(rm, deviceId)`.
unfoldable pub new_device : Classes → Api → Call Device
unfolding nv_rm_call
new_device c a w = and_then (alloc a.client c.device_0 a.client w) λ device w1.
    and_then (on_exception (delete_object a.client device) (alloc a.client c.subdevice_0 device w1))
      λ subdevice w2. (done (record { device = device; subdevice = subdevice }), w2)

unfoldable pub delete_device : Api → Device → Call ℕ
unfolding nv_rm_call
delete_device a d w =
    and_then (destructed (delete_object a.client d.subdevice) w)
      λ _ w1. destructed (delete_object a.client d.device) w1

pub record Mapping : Type 0 where
  pub h_memory : ℕ
  pub linear_address : ℕ
  pub flags : ℕ
  pub area : ℕ

-- `MapMemory`, which opens the control device or the GPU's.
unfoldable pub map_device_memory : Api → Device → (h_memory offset length flags : ℕ) → Call Mapping
unfolding nv_rm_call
map_device_memory a d h_memory offset length flags w = and_then (open_asserted w) λ mem_fd w1.
    and_then
      (on_exception (close mem_fd)
        (map_memory a.client d.device h_memory offset length flags mem_fd w1))
      λ linear w2.
        and_then (on_exception (close mem_fd) (nv_rm_call (haiku_map mem_fd) w2)) λ area w3.
          and_then (close mem_fd w3) λ _ w4. (
            done (record {
              h_memory = h_memory;
              linear_address = linear;
              flags = flags;
              area = area;
            }),
            w4,
          )

-- `NvRmMemoryMapping::Delete` of a mapping that is set.
unfoldable pub delete_mapping : Api → Device → Mapping → Call ℕ
unfolding nv_rm_call
delete_mapping a d m w =
    unmap_memory a.client d.device m.h_memory m.linear_address m.flags
      (record w { held = record w.held { areas = without m.area w.held.areas } })

-- `ExportObjectToFd`.
unfoldable pub export_object : Api → Call ℕ
unfolding nv_rm_call
export_object a w = and_then (open_checked w) λ out_fd w1.
    and_then (on_exception (close out_fd) (control a.client a.client export_object_to_fd w1))
      λ _ w2. (done out_fd, w2)

-- `ImportObjectFromFd`.
unfoldable pub import_object : Api → Call ℕ
unfolding nv_rm_call
import_object a w = control a.client a.client import_object_from_fd w
