-- ===== src/Database/Runs.antt =====
-- What the accounting of the slots means for the runs of the pool from `Database.__init__` on.
use supernote_task_service.Common.{
  ℕ, zero, suc, ◌+◌, ◌≤◌, ◌≡◌, ◌∙◌, refl, List, [], ◌∷◌, ◌++◌, length, arith,
}
use supernote_task_service.Database.{
  Pool, Thread, outside, reserving, waiting, connecting, checking, using, Outcome, succeeds, fails,
  next, step_at, run, new_pool, all_outside, release, get_nowait, try_reserve_slot, unreserve_slot,
  get_wait,
}
use supernote_task_service.Database.Slots.{slots, held, IsBalanced, run-IsBalanced}

next-size : (o : Outcome) (t : Thread) (p : Pool) → (next o t p).0.size ≡ p.size
unfolding next get_wait release unreserve_slot get_nowait try_reserve_slot
next-size o outside p = ground arith
next-size o reserving p = ground arith
next-size (succeeds d) waiting p = ground arith
next-size fails waiting p = ground arith
next-size (succeeds d) connecting p = refl
next-size fails connecting p = refl
next-size (succeeds d) (checking c) p = refl
next-size fails (checking c) p = refl
next-size o (using c) p = ground arith

step_at-size :
    (i : ℕ) (o : Outcome) (p : Pool) (ts : List Thread) → (step_at i o p ts).0.size ≡ p.size
unfolding step_at
step_at-size i o p [] = refl
step_at-size zero o p (t ∷ ts) = next-size o t p
step_at-size (suc i) o p (t ∷ ts) = step_at-size i o p ts

run-size :
    (schedule : List (ℕ × Outcome)) (p : Pool) (ts : List Thread)
    → (run schedule p ts).0.size ≡ p.size
unfolding run
run-size [] p ts = refl
run-size ((i, o) ∷ more) p ts =
    run-size more (step_at i o p ts).0 (step_at i o p ts).1 ∙ step_at-size i o p ts

held-all_outside : (n : ℕ) → held (all_outside n) ≡ 0
unfolding all_outside held slots
held-all_outside zero = refl
held-all_outside (suc n) = ground (arith, held-all_outside n)

held-append : (xs ys : List Thread) → held (xs ++ ys) ≡ held xs + held ys
unfolding held
held-append [] ys = ground arith
held-append (x ∷ xs) ys = ground (arith, held-append xs ys)

new_pool-IsBalanced : (size n : ℕ) → IsBalanced 0 (new_pool size) (held (all_outside n))
unfolding new_pool
new_pool-IsBalanced size n =
    let e = held-all_outside n in record { counted = ground arith; bounded = omega arith }

module _ (size n : ℕ) (schedule : List (ℕ × Outcome)) where
  abbrev pub pool_after : Pool
  pool_after = (run schedule (new_pool size) (all_outside n)).0

  abbrev pub threads_after : List Thread
  threads_after = (run schedule (new_pool size) (all_outside n)).1

  balanced : IsBalanced 0 pool_after (held threads_after)
  balanced = run-IsBalanced schedule (new_pool size) (all_outside n) (new_pool-IsBalanced size n)

  same_size : pool_after.size ≡ size
  same_size = run-size schedule (new_pool size) (all_outside n) ∙ unfold new_pool in refl

  -- Whatever the order of the threads' steps and the outcome of their calls, the idle connections and
  -- those that threads hold or open are together no more than `db_pool_size`.
  pub open_connections : length pool_after.idle + held threads_after ≤ size
  open_connections =
      let e = same_size in let c = balanced.counted in let b = balanced.bounded in omega arith

  -- A thread that returns its connection always finds room in the queue.
  pub release_finds_room :
      (xs ys : List Thread) (c : ℕ)
      → threads_after ≡ xs ++ using c ∷ ys
      → release c pool_after ≡ record pool_after { idle = c ∷ pool_after.idle }
  unfolding release
  release_finds_room xs ys c e =
      let used : held threads_after ≡ held xs + (1 + held ys) =
        rw e (held-append xs (using c ∷ ys) ∙ unfold held slots in refl) in
      let e' = balanced.counted in let b = balanced.bounded in ground arith
