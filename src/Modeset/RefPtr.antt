-- ===== src/Modeset/RefPtr.antt =====
-- nv-kref.h, and the `nvkms_ref_ptr` calls of nvkms-haiku.cpp: a counted reference to a pointer that
-- its owner may clear. A call gives nothing where the code would touch freed memory.
use mathlib.Core.Option
use nvidia_haiku.Prelude.{ℕ, ◌+◌, ◌-◌, ◌%◌, ◌^◌, Bool, Option, none, some, ◌==◌, if◌then◌else◌}

-- `int32 refcount`, as a 32-bit pattern; `atomic_add` gives the old value.
unfoldable pub kref_init : ℕ
kref_init = 1

unfoldable pub kref_get : ℕ → ℕ
kref_get refcount = (refcount + 1) % 2 ^ 32

-- The new count, and whether `release` was called.
unfoldable pub kref_put : ℕ → ℕ × Bool
kref_put refcount = ((refcount + (2 ^ 32 - 1)) % 2 ^ 32, refcount == 1)

pub record RefPtr : Type 0 where
  pub refcnt : ℕ
  pub ptr : Option ℕ

-- The live objects, by address.
abbrev pub RefPtrs : Type 0
RefPtrs = ℕ → Option RefPtr

abbrev pub update : RefPtrs → ℕ → Option RefPtr → RefPtrs
update refs r x j = if j == r then x else refs j

-- `nvkms_alloc_ref_ptr`, at the address that the allocator gave.
unfoldable pub alloc_ref_ptr : ℕ → Option ℕ → RefPtrs → RefPtrs
unfolding kref_init
alloc_ref_ptr r ptr refs = update refs r (some (record { refcnt = kref_init; ptr = ptr }))

-- `nvkms_inc_ref`.
unfoldable pub inc_ref : ℕ → RefPtrs → Option RefPtrs
unfolding kref_get
inc_ref r refs = elim (refs r) [
  | none ↦ none
  | some x ↦ some (update refs r (some (record x { refcnt = kref_get x.refcnt })))
]

-- `nvkms_dec_ref`, with `ref_ptr_free` as the release: the pointer, as it was before.
unfoldable pub dec_ref : ℕ → RefPtrs → Option (Option ℕ × RefPtrs)
unfolding kref_put
dec_ref r refs = elim (refs r) [
  | none ↦ none
  | some x ↦
      let (refcnt, freed) = kref_put x.refcnt in
      some (x.ptr, update refs r (if freed then none else some (record x { refcnt = refcnt })))
]

-- `nvkms_free_ref_ptr`.
unfoldable pub free_ref_ptr : ℕ → RefPtrs → Option RefPtrs
unfolding dec_ref
free_ref_ptr r refs = elim (refs r) [
  | none ↦ none
  | some x ↦ Option.map (λ y. y.1) (dec_ref r (update refs r (some (record x { ptr = none }))))
]
