-- ===== src/Os/Memory.antt =====
-- `os_alloc_mem` and `os_free_mem` of nvidia_gsp/nvidia/os-haiku.cpp: from the heap with interrupts on, and from the pool of
-- nvidia_gsp/nvidia/IntrSafePool.cpp with interrupts off.
use nvidia_haiku.Prelude.{
  ℕ, ◌≤◌, ◌≡◌, ◌⊎◌, inl, inr, refl, ap, sym, subst, Bool, true, false, Option, none, some, List,
  ◌∷◌, if◌then◌else◌,
}
use nvidia_haiku.Pool.Group.{Block, Outcome, done, panicked, hung, map_outcome}
use nvidia_haiku.Pool.State.{Pool, alloc, free}
use nvidia_haiku.Pool.System.{System, Reach, next, allocs, frees, done-injective}
use nvidia_haiku.Pool.Safety.{alloc_enough}

-- `calloc` and `free` are the heap's: the block that `calloc` gives, and what was given to `free`.
pub record Heap : Type 0 where
  pub calloc : ℕ → Option Block
  pub freed : List (Option Block)

-- A null pointer is `NV_ERR_NO_MEMORY`.
unfoldable pub os_alloc_mem : Bool → Heap → ℕ → Pool → Outcome (Pool × Option Block)
os_alloc_mem true heap size p = done (p, heap.calloc size)
os_alloc_mem false heap size p = map_outcome (λ r. (r.0, some r.1)) (alloc size p)

unfoldable pub os_free_mem : Bool → Option Block → Heap → Pool → Outcome (Heap × Pool)
os_free_mem true ptr heap p = done (record heap { freed = ptr ∷ heap.freed }, p)
os_free_mem false ptr heap p = map_outcome (λ q. (heap, q)) (free ptr p)

panicked≢done {ℓ} : {A : Type ℓ} {a : A} → panicked ≡ done a → ⊥
panicked≢done e = cc

hung≢done {ℓ} : {A : Type ℓ} {a : A} → hung ≡ done a → ⊥
hung≢done e = cc

-- In every state that the pool can reach, with interrupts on or off, a call that returns leaves the pool
-- in such a state, and gives null or a block that is as large as was asked for. Null is only given
-- with interrupts on.
pub os_alloc_mem-Reach :
    {s : System} (interrupts : Bool) (heap : Heap) (size : ℕ) {q : Pool} (ptr : Option Block)
    → Reach s
    → ((n : ℕ) (b : Block) → heap.calloc n ≡ some b → n ≤ b.size)
    → os_alloc_mem interrupts heap size s.pool ≡ done (q, ptr)
    → Reach (record s { pool = q })
      × (((interrupts ≡ true) × (ptr ≡ none)) ⊎ ((b : Block) × (ptr ≡ some b) × (size ≤ b.size)))
unfolding os_alloc_mem
os_alloc_mem-Reach {s} true heap size {q} ptr r honest e =
    let f = done-injective e in
    (
      subst (λ (p : Pool). Reach (record s { pool = p })) (ap (λ (x : Pool × Option Block). x.0) f)
          r,
      given ptr (ap (λ (x : Pool × Option Block). x.1) f),
    )
  where
    given :
        (o : Option Block)
        → heap.calloc size ≡ o
        → ((true ≡ true) × (o ≡ none)) ⊎ ((b : Block) × (o ≡ some b) × (size ≤ b.size))
    given none f = inl (refl, refl)
    given (some b) f = inr (b, refl, honest size b f)
os_alloc_mem-Reach {s} false heap size {q} ptr r honest e = from_pool (alloc size s.pool) refl e
  where
    from_pool :
        (o : Outcome (Pool × Block))
        → alloc size s.pool ≡ o
        → map_outcome {B = Pool × Option Block} (λ (x : Pool × Block). (x.0, some x.1)) o
          ≡ done (q, ptr)
        → Reach (record s { pool = q })
          × (((false ≡ true) × (ptr ≡ none)) ⊎ ((b : Block) × (ptr ≡ some b) × (size ≤ b.size)))
    from_pool panicked a f = absurd (panicked≢done f)
    from_pool hung a f = absurd (hung≢done f)
    from_pool (done (p, b)) a f =
        let g = done-injective f in
        (
          subst (λ (x : Pool). Reach (record s { pool = x }))
              (ap (λ (x : Pool × Option Block). x.0) g) (next r (allocs size a)),
          inr (b, sym (ap (λ (x : Pool × Option Block). x.1) g), alloc_enough size r a),
        )

-- A call that gives a block back keeps the pool in such a state too. With interrupts off the heap gets
-- nothing at once.
pub os_free_mem-Reach :
    {s : System} (interrupts : Bool) (ptr : Option Block) (heap : Heap) {h : Heap} {q : Pool}
    → Reach s
    → os_free_mem interrupts ptr heap s.pool ≡ done (h, q)
    → Reach (record s { pool = q })
      × (h.freed ≡ (if interrupts then ptr ∷ heap.freed else heap.freed))
unfolding os_free_mem
os_free_mem-Reach {s} true ptr heap r e =
    let f = done-injective e in
    (
      subst (λ (p : Pool). Reach (record s { pool = p })) (ap (λ (x : Heap × Pool). x.1) f) r,
      sym (ap (λ (x : Heap × Pool). x.0.freed) f),
    )
os_free_mem-Reach {s} false ptr heap {h} {q} r e = from_pool (free ptr s.pool) refl e
  where
    from_pool :
        (o : Outcome Pool)
        → free ptr s.pool ≡ o
        → map_outcome {B = Heap × Pool} (λ (x : Pool). (heap, x)) o ≡ done (h, q)
        → Reach (record s { pool = q }) × (h.freed ≡ heap.freed)
    from_pool panicked a f = absurd (panicked≢done f)
    from_pool hung a f = absurd (hung≢done f)
    from_pool (done p) a f =
        let g = done-injective f in
        (
          subst (λ (x : Pool). Reach (record s { pool = x })) (ap (λ (x : Heap × Pool). x.1) g)
              (next r (frees ptr a)),
          sym (ap (λ (x : Heap × Pool). x.0.freed) g),
        )
