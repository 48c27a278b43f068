-- ===== src/Sdk/Calls.antt =====
-- The calls of nvrm_cpp_sdk/NvRmApi.cpp with the errors of nvrm_cpp_sdk/ErrorUtils.{h,cpp}, and what they
-- make the resource manager hold for the process. What the system answers, after the retries of
-- `NvRmIoctl`, is a script; where it ends, every call fails.
use nvidia_haiku.Prelude.{ℕ, zero, suc, ◌≡◌, List, [], ◌∷◌, ◌==◌, if◌then◌else◌}

-- The answer to a call of the system: an error number, or the status that the resource manager stored
-- and what else it stored: a handle, an address or an area.
pub data Answer : Type 0 where
  failed : ℕ → Answer
  answered : (status value : ℕ) → Answer

pub data ControlCommand : Type 0 where
  export_object_to_fd : ControlCommand
  import_object_from_fd : ControlCommand
  other : ℕ → ControlCommand

-- The parameters that each call fills in, by the names of their fields.
pub data Command : Type 0 where
  rm_alloc : (h_root h_object_parent h_class : ℕ) → Command
  rm_free : (h_root h_object_old : ℕ) → Command
  rm_control : (h_client h_object : ℕ) → ControlCommand → Command
  rm_map_memory : (h_client h_device h_memory offset length flags fd : ℕ) → Command
  rm_unmap_memory : (h_client h_device h_memory linear_address flags : ℕ) → Command
  rm_alloc_os_event : (h_client fd : ℕ) → Command
  rm_free_os_event : (h_client fd : ℕ) → Command
  haiku_map : ℕ → Command
  register_surface : (fd : ℕ) → Command
  unregister_surface : (surface_handle : ℕ) → Command

-- What the process holds.
pub record Holdings : Type 0 where
  pub files : List ℕ
  pub objects : List ℕ
  pub linears : List ℕ
  pub areas : List ℕ
  pub surfaces : List ℕ

pub record World : Type 0 where
  pub script : List Answer
  pub held : Holdings

-- What `RaiseErrno` and `RaiseNvStatus` throw.
pub data Error : Type 0 where
  errno : ℕ → Error
  nv_status : ℕ → Error

-- How a C++ function ends: by its result, an exception, or the end of the program.
pub data Outcome (A : Type 0) : Type 0 where
  done : A → Outcome A
  raised : Error → Outcome A
  aborted : Outcome A

abbrev pub Call : Type 0 → Type 0
Call A = World → Outcome A × World

-- One call of the system.
abbrev pub take_answer : World → Answer × World
take_answer w = elim w.script [
  | [] ↦ (failed 0, w)
  | answer ∷ script ↦ (answer, record w { script = script })
]

abbrev pub without : ℕ → List ℕ → List ℕ
without x [] = []
without x (y ∷ l) = if x == y then l else y ∷ without x l

-- The objects with a new one. The handle 0 stands for no object.
abbrev pub owned : ℕ → List ℕ → List ℕ
owned zero l = l
owned (suc h) l = suc h ∷ l

-- What a call that succeeds with a value changes in the holdings.
abbrev pub granted : Command → ℕ → Holdings → Holdings
granted (rm_alloc h_root h_object_parent h_class) value held = record held {
  objects = owned value held.objects;
}
granted (rm_free h_root h_object_old) value held = record held {
  objects = without h_object_old held.objects;
}
granted (rm_control h_client h_object export_object_to_fd) value held = held
granted (rm_control h_client h_object import_object_from_fd) value held = record held {
  objects = owned value held.objects;
}
granted (rm_control h_client h_object (other cmd)) value held = held
granted (rm_map_memory h_client h_device h_memory offset length flags fd) value held = record held {
  linears = value ∷ held.linears;
}
granted (rm_unmap_memory h_client h_device h_memory linear_address flags) value held = record held {
  linears = without linear_address held.linears;
}
granted (rm_alloc_os_event h_client fd) value held = held
granted (rm_free_os_event h_client fd) value held = held
granted (haiku_map fd) value held = record held { areas = value ∷ held.areas }
granted (register_surface fd) value held = record held { surfaces = owned value held.surfaces }
granted (unregister_surface surface_handle) value held = record held {
  surfaces = without surface_handle held.surfaces;
}

-- `CheckErrno`, then `CheckNvStatus`, on the answer to a command.
abbrev pub check_answer : Command → Answer × World → Outcome ℕ × World
check_answer command (failed number, w) = (raised (errno number), w)
check_answer command (answered zero value, w) =
    (done value, record w { held = granted command value w.held })
check_answer command (answered (suc status) value, w) = (raised (nv_status (suc status)), w)

-- `NvRmIoctl` and its checks.
unfoldable pub nv_rm_call : Command → Call ℕ
nv_rm_call command w = check_answer command (take_answer w)

-- `NvKmsApi::Control`, which does not retry, and `CheckErrno`.
abbrev pub check_errno : Command → Answer × World → Outcome ℕ × World
check_errno command (failed number, w) = (raised (errno number), w)
check_errno command (answered status value, w) =
    (done value, record w { held = granted command value w.held })

unfoldable pub kms_call : Command → Call ℕ
kms_call command w = check_errno command (take_answer w)

-- The rest of a function after a call of another one.
abbrev pub and_then : {A B : Type 0} → Outcome A × World → (A → Call B) → Outcome B × World
and_then (done a, w) f = f a w
and_then (raised error, w) f = (raised error, w)
and_then (aborted, w) f = (aborted, w)

-- The end of a destructor that an exception runs: one that leaves the destructor ends the program.
abbrev pub unwound : {A : Type 0} → Outcome A → Outcome ℕ × World → Outcome A × World
unwound outcome (done b, w) = (outcome, w)
unwound outcome (raised error, w) = (aborted, w)
unwound outcome (aborted, w) = (aborted, w)

-- An exception destroys a local object or a member.
abbrev pub on_exception : {A : Type 0} → Call ℕ → Outcome A × World → Outcome A × World
on_exception destructor (done a, w) = (done a, w)
on_exception destructor (raised error, w) = unwound (raised error) (destructor w)
on_exception destructor (aborted, w) = (aborted, w)

-- `NvRmApi::Alloc`, `Free`, `Control`, `MapMemory`, `UnmapMemory` and the events, by the handle of the
-- client.
abbrev pub alloc : (client h_class h_parent : ℕ) → Call ℕ
alloc client h_class h_parent = nv_rm_call (rm_alloc client h_parent h_class)

abbrev pub free : (client h_object : ℕ) → Call ℕ
free client h_object = nv_rm_call (rm_free client h_object)

abbrev pub control : (client h_object : ℕ) → ControlCommand → Call ℕ
control client h_object cmd = nv_rm_call (rm_control client h_object cmd)

abbrev pub map_memory : (client h_device h_memory offset length flags mem_fd : ℕ) → Call ℕ
map_memory client h_device h_memory offset length flags mem_fd =
    nv_rm_call (rm_map_memory client h_device h_memory offset length flags mem_fd)

abbrev pub unmap_memory : (client h_device h_memory linear_address flags : ℕ) → Call ℕ
unmap_memory client h_device h_memory linear_address flags =
    nv_rm_call (rm_unmap_memory client h_device h_memory linear_address flags)

abbrev pub alloc_os_event : (client fd : ℕ) → Call ℕ
alloc_os_event client fd = nv_rm_call (rm_alloc_os_event client fd)

abbrev pub free_os_event : (client fd : ℕ) → Call ℕ
free_os_event client fd = nv_rm_call (rm_free_os_event client fd)

-- `open` of a device file, then `assert(IsSet())`.
abbrev pub opened : Answer × World → Outcome ℕ × World
opened (failed number, w) = (aborted, w)
opened (answered status fd, w) =
    (done fd, record w { held = record w.held { files = fd ∷ w.held.files } })

abbrev pub open_asserted : Call ℕ
open_asserted w = opened (take_answer w)

-- `open`, then `CheckErrno`.
abbrev pub checked : Answer × World → Outcome ℕ × World
checked (failed number, w) = (raised (errno number), w)
checked (answered status fd, w) =
    (done fd, record w { held = record w.held { files = fd ∷ w.held.files } })

abbrev pub open_checked : Call ℕ
open_checked w = checked (take_answer w)

-- The destructor of a `FileDesc`: the result of `close` is not looked at.
abbrev pub close : ℕ → Call ℕ
close fd w = (done fd, record w { held = record w.held { files = without fd w.held.files } })

-- The destructor of an `NvRmObject`.
abbrev pub delete_object : (client h_object : ℕ) → Call ℕ
delete_object client zero w = (done 0, w)
delete_object client (suc h) w = free client (suc h) w

-- The destructor of an `NvKmsSurface`.
abbrev pub delete_surface : ℕ → Call ℕ
delete_surface zero w = (done 0, w)
delete_surface (suc h) w = kms_call (unregister_surface (suc h)) w

-- A destructor that no exception runs.
abbrev pub destructed : Call ℕ → Call ℕ
destructed destructor w = unwound (done 0) (destructor w)

-- That a call leaves the holdings as its result says, that one that raises leaves `Kept` of them, and
-- one that ends the program `Aborted`.
abbrev pub Leaves :
    {A : Type 0} → (A → Holdings) → (Kept Aborted : Holdings → Type 0) → Outcome A × World → Type 0
Leaves given Kept Aborted (done a, w) = w.held ≡ given a
Leaves given Kept Aborted (raised error, w) = Kept w.held
Leaves given Kept Aborted (aborted, w) = Aborted w.held
