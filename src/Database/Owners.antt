-- ===== src/Database/Owners.antt =====
-- Where a connection of the pool is: in the queue, or with a thread.
use supernote_task_service.Common.{
  ℕ, zero, suc, ◌+◌, ◌≤◌, ◌≡◌, ◌∙◌, refl, List, [], ◌∷◌, ◌++◌, arith, ◌==◌, if◌then◌else◌,
}
use supernote_task_service.Database.{
  Pool, Thread, outside, reserving, waiting, connecting, checking, using, Outcome, succeeds, fails,
  next, step_at, run, new_pool, all_outside, release, get_nowait, try_reserve_slot, unreserve_slot,
  get_wait,
}
use supernote_task_service.Database.Runs.{pool_after, threads_after}

abbrev same : ℕ → ℕ → ℕ
same c d = if c == d then 1 else 0

module _ (c : ℕ) where
  -- How often the connection is in the queue.
  unfoldable pub queued : List ℕ → ℕ
  queued [] = 0
  queued (d ∷ ds) = same c d + queued ds

  -- Whether a thread checks it, or uses it.
  unfoldable pub owned : Thread → ℕ
  owned outside = 0
  owned reserving = 0
  owned waiting = 0
  owned connecting = 0
  owned (checking d) = same c d
  owned (using d) = same c d

  unfoldable pub in_hands : List Thread → ℕ
  unfolding owned
  in_hands [] = 0
  in_hands (t ∷ ts) = owned t + in_hands ts

  -- How often the database gives it.
  unfoldable pub gives : Outcome → ℕ
  gives (succeeds d) = same c d
  gives fails = 0

  unfoldable pub given : List (ℕ × Outcome) → ℕ
  unfolding gives
  given [] = 0
  given ((i, o) ∷ more) = gives o + given more

  next-places :
      (o : Outcome) (t : Thread) (p : Pool)
      → queued (next o t p).0.idle + owned (next o t p).1 ≤ queued p.idle + owned t + gives o
  unfolding next owned gives queued get_wait release unreserve_slot get_nowait try_reserve_slot
  next-places o outside p = ground arith
  next-places o reserving p = ground arith
  next-places (succeeds d) waiting p = ground arith
  next-places fails waiting p = ground arith
  next-places (succeeds d) connecting p = ground arith
  next-places fails connecting p = ground arith
  next-places (succeeds d) (checking e) p = ground arith
  next-places fails (checking e) p = ground arith
  next-places o (using e) p = ground arith

  step_at-places :
      (i : ℕ) (o : Outcome) (p : Pool) (ts : List Thread)
      → queued (step_at i o p ts).0.idle + in_hands (step_at i o p ts).1
        ≤ queued p.idle + in_hands ts + gives o
  unfolding step_at in_hands
  step_at-places i o p [] = ground arith
  step_at-places zero o p (t ∷ ts) = let one = next-places o t p in ground arith
  step_at-places (suc i) o p (t ∷ ts) = let others = step_at-places i o p ts in ground arith

  run-places :
      (schedule : List (ℕ × Outcome)) (p : Pool) (ts : List Thread)
      → queued (run schedule p ts).0.idle + in_hands (run schedule p ts).1
        ≤ queued p.idle + in_hands ts + given schedule
  unfolding run given
  run-places [] p ts = ground arith
  run-places ((i, o) ∷ more) p ts =
      let one = step_at-places i o p ts in
      let others = run-places more (step_at i o p ts).0 (step_at i o p ts).1 in ground arith

  in_hands-all_outside : (n : ℕ) → in_hands (all_outside n) ≡ 0
  unfolding all_outside in_hands owned
  in_hands-all_outside zero = refl
  in_hands-all_outside (suc n) = ground (arith, in_hands-all_outside n)

  in_hands-append : (xs ys : List Thread) → in_hands (xs ++ ys) ≡ in_hands xs + in_hands ys
  unfolding in_hands
  in_hands-append [] ys = ground arith
  in_hands-append (x ∷ xs) ys = ground (arith, in_hands-append xs ys)

  -- In any order of the threads' steps, a connection that the database gave at most once, and that a
  -- thread uses, is not in the queue, and no other thread checks or uses it.
  pub sole_owner :
      (size n : ℕ) (schedule : List (ℕ × Outcome)) (xs ys : List Thread)
      → given schedule ≤ 1
      → threads_after size n schedule ≡ xs ++ using c ∷ ys
      → (queued (pool_after size n schedule).idle ≡ 0) × (in_hands (xs ++ ys) ≡ 0)
  sole_owner size n schedule xs ys once e =
      let places = run-places schedule (new_pool size) (all_outside n) in
      let none_yet = in_hands-all_outside n in
      let empty : queued (new_pool size).idle ≡ 0 = unfold new_pool queued in refl in
      let used : in_hands (threads_after size n schedule) ≡ in_hands xs + (1 + in_hands ys) =
        rw e (in_hands-append xs (using c ∷ ys) ∙ unfold in_hands owned in ground arith) in
      let others = in_hands-append xs ys in (ground arith, ground arith)
