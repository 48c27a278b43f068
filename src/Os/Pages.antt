-- ===== src/Os/Pages.antt =====
-- Pages for DMA in nvidia_gsp/nvidia/os-haiku.cpp: `nv_alloc_pages` and the address that
-- `nv_alloc_user_mapping` gives a page. The areas and the memory map of the kernel are parameters.
use nvidia_haiku.Prelude.{
  ℕ, zero, suc, ◌+◌, ◌*◌, ◌≤◌, ◌<◌, ◌≡◌, refl, ap, subst, ◌∙◌, Bool, true, not, Option, none, some,
  List, length, length-set, get_elem?, get_or, set, get_elem?-set_self, get_elem?-set_ne,
  get_or-get_elem?, ltb, if◌then◌else◌, Bool-cases, inl, inr, arith,
}

abbrev pub page_size : ℕ
page_size = 4096

-- `create_area` for a number of bytes, with the area and its address, and `get_memory_map` for the
-- page at an address.
pub record Kernel : Type 0 where
  pub create_area : ℕ → Option (ℕ × ℕ)
  pub memory_map : ℕ → Option ℕ

-- `nv_alloc_t`, and the address that `get_area_info` gives for its area.
pub record Alloc : Type 0 where
  pub area : ℕ
  pub address : ℕ
  pub cache_type : ℕ
  pub phys_base : ℕ

pub data Allocated : Type 0 where
  no_memory : Allocated
  aborted : Allocated
  allocated : Alloc → List ℕ → Allocated

-- The loop over the pages from `page` on, with those that are left. None is `abort`.
unfoldable pub fill_ptes : (ℕ → Option ℕ) → ℕ → ℕ → ℕ → List ℕ → Option (List ℕ)
fill_ptes memory_map zero page address pte_array = some pte_array
fill_ptes memory_map (suc left) page address pte_array =
    elim (memory_map (address + page * page_size)) [
      | none ↦ none
      | some phys ↦ fill_ptes memory_map left (page + 1) address (set pte_array page phys)
    ]

abbrev pub finish_alloc : ℕ → ℕ → ℕ → Option (List ℕ) → Allocated
finish_alloc cache_type area address none = aborted
finish_alloc cache_type area address (some ptes) =
    allocated
      (record {
        area = area;
        address = address;
        cache_type = cache_type;
        phys_base = get_or ptes 0 0;
      })
      ptes

abbrev pub fill_area : Kernel → ℕ → Bool → ℕ → List ℕ → Option (ℕ × ℕ) → Allocated
fill_area k page_count contiguous cache_type pte_array none = no_memory
fill_area k page_count contiguous cache_type pte_array (some (area, address)) =
    finish_alloc cache_type area address
      (fill_ptes k.memory_map (if contiguous then 1 else page_count) 0 address pte_array)

-- `nv_alloc_pages`, with whether there is memory for the `nv_alloc_t`.
unfoldable pub nv_alloc_pages : Kernel → Bool → ℕ → Bool → ℕ → List ℕ → Allocated
unfolding fill_ptes
nv_alloc_pages k memory page_count contiguous cache_type pte_array =
    if not memory
    then no_memory
    else fill_area k page_count contiguous cache_type pte_array
        (k.create_area (page_count * page_size))

abbrev pub offset_by : ℕ → Option ℕ → Option ℕ
offset_by offset none = none
offset_by offset (some phys) = some (phys + offset)

-- `nv_alloc_user_mapping`: none is `NV_ERR_GENERIC`.
unfoldable pub nv_alloc_user_mapping : Kernel → Alloc → (page_index page_offset : ℕ) → Option ℕ
nv_alloc_user_mapping k alloc page_index page_offset =
    offset_by page_offset (k.memory_map (alloc.address + page_index * page_size))

-- An area is contiguous: each of its pages is at its place behind the first.
abbrev pub IsContiguous : Kernel → (address base page_count : ℕ) → Type 0
IsContiguous k address base page_count =
    (i : ℕ) → i < page_count → k.memory_map (address + i * page_size) ≡ some (base + i * page_size)

record Filled (base page left : ℕ) (before after : List ℕ) : Type 0 where
  written : (i : ℕ) → page ≤ i → i < page + left → get_elem? after i ≡ some (base + i * page_size)
  kept : (i : ℕ) → i < page → get_elem? after i ≡ get_elem? before i

fill_ptes-Filled :
    (k : Kernel) (address base page_count left page : ℕ) (ptes : List ℕ)
    → IsContiguous k address base page_count
    → page + left ≤ page_count
    → page + left ≤ length ptes
    → (result : List ℕ) × (fill_ptes k.memory_map left page address ptes ≡ some result)
      × Filled base page left ptes result
unfolding fill_ptes
fill_ptes-Filled k address base n zero page ptes c h l =
    (ptes, refl, record { written = λ i a b. absurd (omega (arith, a, b)); kept = λ i a. refl })
fill_ptes-Filled k address base n (suc left) page ptes c h l =
    let v = base + page * page_size in
    let rest =
      fill_ptes-Filled k address base n left (page + 1) (set ptes page v) c (omega (arith, h))
        (omega (arith, l, length-set ptes page v)) in
    (
      rest.0,
      rw (c page (omega (arith, h)), fill_ptes) rest.1,
      record {
        written = λ i a b. elim (Bool-cases (ltb page i)) [
          | inl later ↦ rest.2.written i (ground (arith, later)) (omega (arith, b))
          | inr now ↦
              let e : page ≡ i = ground (arith, now, a) in
              subst (λ j. get_elem? rest.0 j ≡ some (base + j * page_size)) e
                (rest.2.kept page (omega arith) ∙ get_elem?-set_self ptes page v (omega (arith, l)))
        ];
        kept = λ i a.
            rest.2.kept i (omega (arith, a))
            ∙ get_elem?-set_ne ptes page i v (λ e. absurd (omega (arith, a, e)));
      },
    )

-- Where the kernel gives a contiguous area, a call succeeds. It writes the physical address of each page
-- into the array, or that of the first page only for a contiguous request, and keeps the first as the
-- base; and a mapping of a page for the user is that page's address with the offset added.
pub pages_mapped :
    (k : Kernel) (page_count : ℕ) (contiguous : Bool) (cache_type : ℕ) (ptes : List ℕ)
    (area address base : ℕ)
    → 0 < page_count
    → length ptes ≡ (if contiguous then 1 else page_count)
    → k.create_area (page_count * page_size) ≡ some (area, address)
    → IsContiguous k address base page_count
    → (result : List ℕ) × let alloc : Alloc = record {
      area = area;
      address = address;
      cache_type = cache_type;
      phys_base = base;
    } in
        (nv_alloc_pages k true page_count contiguous cache_type ptes ≡ allocated alloc result)
        × ((i : ℕ)
            → i < (if contiguous then 1 else page_count)
            → get_elem? result i ≡ some (base + i * page_size))
        × ((i offset : ℕ)
            → i < page_count
            → nv_alloc_user_mapping k alloc i offset ≡ some (base + i * page_size + offset))
unfolding nv_alloc_pages nv_alloc_user_mapping
pages_mapped k n contiguous cache_type ptes area address base pos len made c =
    let f =
      fill_ptes-Filled k address base n (if contiguous then 1 else n) 0 ptes c (ground (arith, pos))
        (omega (arith, len)) in
    let first = get_or-get_elem? f.0 0 0 (f.2.written 0 (omega arith) (ground (arith, pos))) in
    (
      f.0,
      (
        ap (fill_area k n contiguous cache_type ptes) made
            ∙ ap (finish_alloc cache_type area address) f.1
            ∙ ap (with_base f.0) (first ∙ omega arith),
        λ i h. f.2.written i (omega arith) (omega (arith, h)),
        λ i offset h. ap (offset_by offset) (c i h),
      ),
    )
  where
    with_base : List ℕ → ℕ → Allocated
    with_base result b =
        allocated
          (record { area = area; address = address; cache_type = cache_type; phys_base = b }) result
