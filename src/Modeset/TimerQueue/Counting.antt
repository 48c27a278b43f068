-- ===== src/Modeset/TimerQueue/Counting.antt =====
-- In every state that nvidia-modeset/TimerQueue.cpp and its clients can reach, the references are
-- counted.
use nvidia_haiku.Prelude.{
  ℕ, ◌+◌, ◌^◌, ◌<◌, ◌≡◌, ◌≢◌, Bool, true, [], none, some, arith, length, bind-cases,
}
use nvidia_haiku.Modeset.TimerQueue.{State, find, schedule, alloc, alloc_with_ref_ptr}
use nvidia_haiku.Modeset.TimerQueue.System.{
  System, Step, owner_allocs, owner_frees, allocs, allocs_with_ref_ptr, frees, fires, runs, ends,
  Reach, initial, next,
}
use nvidia_haiku.Modeset.TimerQueue.Timers.{holders-le}
use nvidia_haiku.Modeset.TimerQueue.Kept.{
  IsCounted, schedule-IsCounted, free-IsCounted, timer_hook-IsCounted, end_dpc-IsCounted,
  create_plain-IsCounted, create_lent-IsCounted,
}
use nvidia_haiku.Modeset.TimerQueue.Owners.{owner_allocs-IsCounted, owner_frees-IsCounted}
use nvidia_haiku.Modeset.TimerQueue.Running.{do_dpc-IsCounted}

alloc-IsCounted :
    (owners : ℕ → Bool) (s : State) (address proc data_ptr data_u32 usec : ℕ) {t : State}
    → IsCounted owners s
    → find address s.timers ≡ none
    → alloc address proc data_ptr data_u32 usec s ≡ some t
    → IsCounted owners t
unfolding alloc
alloc-IsCounted owners s address proc data_ptr data_u32 usec v fresh e =
    let (s', c, d) = bind-cases _ (schedule address usec) e in
    schedule-IsCounted owners s'
      (create_plain-IsCounted owners s v address proc data_ptr data_u32 fresh c) address usec d

alloc_with_ref_ptr-IsCounted :
    (owners : ℕ → Bool) (s : State) (address proc ref_ptr data_u32 usec : ℕ) {t : State}
    → IsCounted owners s
    → find address s.timers ≡ none
    → s.running ≢ some address
    → owners ref_ptr ≡ true
    → length s.timers + 2 < 2 ^ 32
    → alloc_with_ref_ptr address proc ref_ptr data_u32 usec s ≡ some t
    → IsCounted owners t
unfolding alloc_with_ref_ptr
alloc_with_ref_ptr-IsCounted owners s address proc ref_ptr data_u32 usec v fresh idle owned few e =
    let (s', c, d) = bind-cases _ (schedule address usec) e in
    schedule-IsCounted owners s'
      (create_lent-IsCounted owners s v address proc ref_ptr data_u32 fresh idle owned few c)
      address usec d

Step-IsCounted : {s t : System} → Step s t → IsCounted s.owners s.state → IsCounted t.owners t.state
Step-IsCounted {s} (owner_allocs r ptr q) v = owner_allocs-IsCounted s.owners s.state v r ptr q
Step-IsCounted {s} (owner_frees r o e) v = owner_frees-IsCounted s.owners s.state v r o e
Step-IsCounted {s} (allocs a p d u usec fresh idle e) v =
    alloc-IsCounted s.owners s.state a p d u usec v fresh e
Step-IsCounted {s} (allocs_with_ref_ptr a p d u usec fresh idle o few e) v =
    alloc_with_ref_ptr-IsCounted s.owners s.state a p d u usec v fresh idle o few e
Step-IsCounted {s} (frees a {u} q plain e) v = free-IsCounted s.owners s.state v a u q plain e
Step-IsCounted {s} (fires a armed e) v = timer_hook-IsCounted s.owners s.state v a e
Step-IsCounted {s} (runs a queued idle e) v = do_dpc-IsCounted s.owners s.state v idle a e
Step-IsCounted {s} (ends a run e) v = end_dpc-IsCounted s.owners s.state v a run e

-- In every reachable state live timers have distinct addresses, and the count of each
-- `nvkms_ref_ptr` is one for an owner that has not let go plus one for each timer whose procedure
-- has not been called: an object is live exactly while that number is not 0.
pub Reach-IsCounted : {s : System} → Reach s → IsCounted s.owners s.state
Reach-IsCounted initial = record {
  distinct = tt;
  counted = λ r. omega (arith, holders-le r none []);
}
Reach-IsCounted (next r st) = Step-IsCounted st (Reach-IsCounted r)
