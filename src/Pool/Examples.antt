-- ===== src/Pool/Examples.antt =====
-- Runs of `IntrSafePool` on concrete pools.
use nvidia_haiku.Prelude.{
  ◌++◌, ℕ, ◌+◌, ◌*◌, ◌^◌, ◌≤◌, ◌<◌, ◌≡◌, ◌⊎◌, refl, [], ◌∷◌, none, some, arith, replicate,
}
use nvidia_haiku.Pool.Group.{Block, Outcome, done, panicked, Group, IsLarge, empty-IsGroup}
use nvidia_haiku.Pool.Group
use nvidia_haiku.Pool.SizeClass.{
  min_size, size_class, size_class_loop, size_class_least, size_class_hangs,
}
use nvidia_haiku.Pool.State.{Pool, init, alloc, alloc_from}
use nvidia_haiku.Pool.Maintain.{filling, start, drain, fill, scan, put_at, resume}
use nvidia_haiku.Pool.Invariant.{IsPool}
use nvidia_haiku.Pool.System.{System, Reach, initial, next, starts, resumes, Inv}
use nvidia_haiku.Pool.Safety.{Reach-Inv, alloc_enough, init-Inv}
use nvidia_haiku.Pool.Reclaim.{reclaim_all, top_first, held, AllEmpty, reclaim_all_frees}
use nvidia_haiku.Pool.Refill.{maintain, IsRefilled, maintain_refills}

abbrev block : ℕ → Block
block size = record { address = 4096; size = size }

abbrev empty_group : Group
empty_group = record { count = 0; items = replicate 16 none }

-- One block of 16 bytes, and a call of `Maintain` that is about to get the next.
abbrev stocked : System
stocked = record {
  pool = record {
    groups =
        record { count = 1; items = some (block 16) ∷ replicate 15 none }
        ∷ empty_group
        ∷ empty_group
        ∷ empty_group
        ∷ [];
    reclaim_group = record { count = 0; items = replicate 4096 none };
    level = 1;
  };
  active = filling 0 16 ∷ [];
}

stocked-Reach : Reach stocked
unfolding init Group.empty start drain fill scan Group.reclaim resume put_at Group.put
stocked-Reach =
    next (next initial (starts refl))
      (resumes [] [] (filling 0 16) (some (block 16)) refl (omega arith) refl)

Reach-Inv_example : Inv stocked
Reach-Inv_example = Reach-Inv stocked-Reach

alloc_enough_example : 10 ≤ 16
unfolding alloc size_class size_class_loop alloc_from Group.alloc
alloc_enough_example = alloc_enough {s = stocked} 10 {b = block 16} stocked-Reach refl

size_class_least_example :
    (n : ℕ) × (size_class 100 ≡ some n)
    × (100 ≤ min_size * 2 ^ n)
    × ((n ≡ 0) ⊎ (min_size * 2 ^ n < 2 * 100))
size_class_least_example = size_class_least 100 (omega arith)

size_class_hangs_example : size_class_loop 1000 0 min_size (2 ^ 63 + 1) ≡ none
size_class_hangs_example = size_class_hangs 1000 (2 ^ 63 + 1) (omega arith)

size_class_run : (size_class 16 ≡ some 0) × (size_class 17 ≡ some 1) × (size_class 128 ≡ some 3)
unfolding size_class size_class_loop
size_class_run = (refl, refl, refl)

init-IsPool : IsPool init
init-IsPool = init-Inv.valid

maintain_refills_example :
    (q : Pool) × (maintain 64 (λ size. some (block size)) init ≡ some q) × IsRefilled q
unfolding init Group.empty
maintain_refills_example =
    maintain_refills (λ size. some (block size)) (λ size. omega arith) 64 init init-IsPool refl
      (omega arith)

reclaim_all_frees_example :
    (q : Pool) × (reclaim_all stocked.pool
      ≡ done (q, top_first 0 (replicate 4096 none) ++ held stocked.pool.groups))
    × IsPool q
    × AllEmpty (q.reclaim_group ∷ q.groups)
reclaim_all_frees_example = reclaim_all_frees stocked.pool (Reach-Inv stocked-Reach).valid
