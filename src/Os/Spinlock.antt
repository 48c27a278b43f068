-- ===== src/Os/Spinlock.antt =====
-- The spinlocks of nvidia_gsp/nvidia/os-haiku.cpp, which turn interrupts off, on one CPU. The pool of
-- `os_alloc_mem` is refilled where a lock is given back and interrupts are on again.
use mathlib.Core.Option
use nvidia_haiku.Prelude.{
  ℕ, ◌+◌, ◌≡◌, refl, ap, ◌∙◌, Bool, true, false, ◌||◌, Option, none, some, List, [], ◌∷◌, ◌==◌,
  ==_iff, if◌then◌else◌, if_false, arith,
}
use nvidia_haiku.Handles.Select.{remove}

-- Whether interrupts are on, the spinlocks that are held, and how often `Maintain` has been called.
pub record Cpu : Type 0 where
  pub interrupts : Bool
  pub held : List ℕ
  pub maintained : ℕ

abbrev pub contains : List ℕ → ℕ → Bool
contains [] a = false
contains (x ∷ xs) a = x == a || contains xs a

-- `acquire_spinlock` on a lock that is held, and `Maintain` with interrupts off, do not come back; nor
-- does `release_spinlock` on a lock that is free.
abbrev pub acquire_spinlock : ℕ → Cpu → Option Cpu
acquire_spinlock lock c =
    if contains c.held lock then none else some (record c { held = lock ∷ c.held })

abbrev pub release_spinlock : ℕ → Cpu → Option Cpu
release_spinlock lock c =
    if contains c.held lock then some (record c { held = remove lock c.held }) else none

abbrev pub maintain : Cpu → Option Cpu
maintain c = if c.interrupts then some (record c { maintained = c.maintained + 1 }) else none

-- `os_acquire_spinlock`, with the state of the interrupts that it returns.
unfoldable pub os_acquire_spinlock : ℕ → Cpu → Option (Bool × Cpu)
unfolding Option.bind
os_acquire_spinlock lock c =
    Option.bind (acquire_spinlock lock (record c { interrupts = false }))
      (λ d. some (c.interrupts, d))

unfoldable pub os_release_spinlock : ℕ → Bool → Cpu → Option Cpu
unfolding Option.bind
os_release_spinlock lock old_irql c =
    Option.bind (release_spinlock lock c)
      λ d. let e = record d { interrupts = old_irql } in if old_irql then maintain e else some e

-- Code that takes spinlocks: nothing, or a section under a lock and what comes after it.
pub data Code : Type 0 where
  skip : Code
  locked : ℕ → Code → Code → Code

unfoldable pub run : Code → Cpu → Option Cpu
unfolding Option.bind os_acquire_spinlock os_release_spinlock
run skip c = some c
run (locked lock inner rest) c = Option.bind (os_acquire_spinlock lock c) λ (old_irql, d).
    Option.bind (run inner d) (λ e. Option.bind (os_release_spinlock lock old_irql e) (run rest))

-- No lock is taken while it is held.
abbrev pub IsFree : List ℕ → Code → Type 0
IsFree held skip = Unit {0}
IsFree held (locked lock inner rest) =
    (contains held lock ≡ false) × IsFree (lock ∷ held) inner × IsFree held rest

abbrev pub sections : Code → ℕ
sections skip = 0
sections (locked lock inner rest) = 1 + sections rest

abbrev cpu : Bool → List ℕ → ℕ → Cpu
cpu interrupts held maintained = record {
  interrupts = interrupts;
  held = held;
  maintained = maintained;
}

acquires :
    (lock : ℕ) (c : Cpu)
    → contains c.held lock ≡ false
    → os_acquire_spinlock lock c ≡ some (c.interrupts, cpu false (lock ∷ c.held) c.maintained)
unfolding os_acquire_spinlock
acquires lock c h = ap (λ o. Option.bind o (λ d. some (c.interrupts, d))) (if_false _ _ h)

releases :
    (lock : ℕ) (old_irql : Bool) (held : List ℕ) (n : ℕ)
    → os_release_spinlock lock old_irql (cpu false (lock ∷ held) n)
      ≡ some (cpu old_irql held (n + (if old_irql then 1 else 0)))
unfolding os_release_spinlock
releases lock true held n = rw ((==_iff lock lock).1 refl)
releases lock false held n =
    rw ((==_iff lock lock).1 refl) (ap (λ m. some (cpu false held m)) (omega arith))

-- Code that takes no lock twice runs to its end, however its sections nest. After it interrupts are as
-- before and the same locks are held, and `Maintain` has been called once for each outermost
-- section if interrupts were on before and not at all if they were off.
pub sections_nest :
    (code : Code) (c : Cpu)
    → IsFree c.held code
    → run code c
      ≡ some (record c { maintained = c.maintained + (if c.interrupts then sections code else 0) })
unfolding run
sections_nest skip c free =
    ap (λ n. some (cpu c.interrupts c.held n)) (unchanged c.interrupts c.maintained)
  where
    unchanged : (b : Bool) (n : ℕ) → n ≡ n + (if b then 0 else 0)
    unchanged true n = omega arith
    unchanged false n = omega arith
sections_nest (locked lock inner rest) c free = rw (acquires lock c free.0) (
    rw (sections_nest inner (cpu false (lock ∷ c.held) c.maintained) free.1) (
      rw (releases lock c.interrupts c.held (c.maintained + 0)) (
        sections_nest rest
          (cpu c.interrupts c.held (c.maintained + 0 + (if c.interrupts then 1 else 0))) free.2
        ∙ ap (λ n. some (cpu c.interrupts c.held n))
            (total c.interrupts c.maintained (sections rest)))))
  where
    total :
        (b : Bool) (n k : ℕ)
        → n + 0 + (if b then 1 else 0) + (if b then k else 0) ≡ n + (if b then 1 + k else 0)
    total true n k = omega arith
    total false n k = omega arith
