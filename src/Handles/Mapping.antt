-- ===== src/Handles/Mapping.antt =====
-- The mapping context of a file: `nv_add_mapping_context_to_file` of nvidia_gsp/nvidia/os-haiku.cpp, and
-- what the destructor of nvidia_gsp/nvidia/BaseDevice.cpp frees of it.
use nvidia_haiku.Prelude.{
  ℕ, ◌≡◌, ◌≢◌, ◌⊎◌, refl, sym, ap, ◌∙◌, Bool, true, false, not, List, Option, none, some, ◌==◌,
  if◌then◌else◌, Bool-cases, inl, inr, if_true, if_false,
}

pub data NvStatus : Type 0 where
  nv_ok : NvStatus
  nv_err_invalid_argument : NvStatus
  nv_err_state_in_use : NvStatus
  nv_err_no_memory : NvStatus

pub record MemoryRange : Type 0 where
  pub start : ℕ
  pub size : ℕ

-- `nv_alloc_mapping_context_t`, for the fields that the driver uses. `ranges` is null or what is stored.
pub record MappingContext : Type 0 where
  pub valid : Bool
  pub alloc : Option ℕ
  pub page_index : ℕ
  pub ranges : Option (List MemoryRange)
  pub prot : ℕ
  pub caching : ℕ

abbrev pub zero_context : MappingContext
zero_context = record {
  valid = false;
  alloc = none;
  page_index = 0;
  ranges = none;
  prot = 0;
  caching = 0;
}

-- An open file: the device that it is on, and its context.
pub record File : Type 0 where
  pub device : ℕ
  pub context : MappingContext

-- The arguments: the device, whether it is the control device, and what to map.
pub record Request : Type 0 where
  pub nv : ℕ
  pub is_ctl : Bool
  pub alloc : Option ℕ
  pub page_index : ℕ
  pub ranges : List MemoryRange
  pub prot : ℕ
  pub caching : ℕ

abbrev pub finish : Request → MappingContext → MappingContext
finish r c = record c { prot = r.prot; valid = true; caching = r.caching }

-- `memory` is whether `os_alloc_mem` gives memory. No file is a descriptor that is no open file.
unfoldable pub add_mapping_context_to_file : Bool → Request → Option File → NvStatus × Option File
add_mapping_context_to_file memory r none = (nv_err_invalid_argument, none)
add_mapping_context_to_file memory r (some file) =
    if file.context.valid
    then (nv_err_state_in_use, some file)
    else if r.is_ctl
    then (
      nv_ok,
      some (record file {
        context = finish r (record zero_context { alloc = r.alloc; page_index = r.page_index });
      }),
    )
    else if not (file.device == r.nv)
    then (nv_err_invalid_argument, some (record file { context = zero_context }))
    else if memory
    then (
      nv_ok,
      some (record file { context = finish r (record zero_context { ranges = some r.ranges }) }),
    )
    else (nv_err_no_memory, some (record file { context = zero_context }))

-- What the destructor frees.
unfoldable pub freed_ranges : File → Option (List MemoryRange)
freed_ranges file = if file.context.valid then file.context.ranges else none

-- A context that was set stays until the file is closed: a second call fails and changes nothing.
-- After any call on an open file the destructor frees exactly the ranges that the context holds, so
-- that none is lost.
pub context_set_once :
    (memory second : Bool) (r : Request) (q : Request) (file : File)
    → file.context.valid ≡ false
    → (f : File) × ((add_mapping_context_to_file memory r (some file)).1 ≡ some f)
      × (freed_ranges f ≡ f.context.ranges)
      × ((f.context.valid ≡ true)
            × (add_mapping_context_to_file second q (some f) ≡ (nv_err_state_in_use, some f))
          ⊎ ((f.context.valid ≡ false)
              × ((add_mapping_context_to_file memory r (some file)).0 ≢ nv_ok)))
unfolding add_mapping_context_to_file freed_ranges
context_set_once memory second r q file fresh = elim (Bool-cases r.is_ctl) [
  | inl ctl ↦ (
    _,
    ap (λ (x : NvStatus × Option File). x.1) (if_false _ _ fresh ∙ if_true _ _ ctl),
    refl,
    inl (refl, refl),
  )
  | inr gpu ↦ elim (Bool-cases (file.device == r.nv)) [
    | inr other ↦
        let run = if_false _ _ fresh ∙ if_false _ _ gpu ∙ if_true _ _ (ap not other) in
        (
          _,
          ap (λ (x : NvStatus × Option File). x.1) run,
          refl,
          inr (refl, λ p. argument≢ok (sym (ap (λ (x : NvStatus × Option File). x.0) run) ∙ p)),
        )
    | inl own ↦ elim (Bool-cases memory) [
      | inl room ↦
          let run =
            if_false _ _ fresh ∙ if_false _ _ gpu ∙ if_false _ _ (ap not own) ∙ if_true _ _ room in
          (_, ap (λ (x : NvStatus × Option File). x.1) run, refl, inl (refl, refl))
      | inr full ↦
          let run =
            if_false _ _ fresh ∙ if_false _ _ gpu ∙ if_false _ _ (ap not own) ∙ if_false _ _ full in
          (
            _,
            ap (λ (x : NvStatus × Option File). x.1) run,
            refl,
            inr (refl, λ p. memory≢ok (sym (ap (λ (x : NvStatus × Option File). x.0) run) ∙ p)),
          )
    ]
  ]
]
  where
    argument≢ok : nv_err_invalid_argument ≡ nv_ok → ⊥
    argument≢ok p = cc

    memory≢ok : nv_err_no_memory ≡ nv_ok → ⊥
    memory≢ok p = cc
