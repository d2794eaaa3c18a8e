-- ===== src/Database/Slots.antt =====
-- The accounting of the pool's slots.
use supernote_task_service.Common.{ℕ, zero, suc, ◌+◌, ◌≤◌, ◌≡◌, List, [], ◌∷◌, length, arith}
use supernote_task_service.Database.{
  Pool, Thread, outside, reserving, waiting, connecting, checking, using, Outcome, succeeds, fails,
  next, step_at, run, release, get_nowait, try_reserve_slot, unreserve_slot, get_wait,
}

-- The slots that a thread holds.
unfoldable pub slots : Thread → ℕ
slots outside = 0
slots reserving = 0
slots waiting = 0
slots connecting = 1
slots (checking c) = 1
slots (using c) = 1

unfoldable pub held : List Thread → ℕ
unfolding slots
held [] = 0
held (t ∷ ts) = slots t + held ts

-- Every reserved slot is that of an idle connection or of a thread, `others` of them elsewhere, and
-- there are no more than the size.
pub record IsBalanced (others : ℕ) (p : Pool) (n : ℕ) : Type 0 where
  pub counted : p.created ≡ length p.idle + n + others
  pub bounded : p.created ≤ p.size

next-IsBalanced :
    (k : ℕ) (o : Outcome) (t : Thread) (p : Pool)
    → IsBalanced k p (slots t)
    → IsBalanced k (next o t p).0 (slots (next o t p).1)
unfolding next slots get_wait release unreserve_slot get_nowait try_reserve_slot
next-IsBalanced k o outside p b = record {
  counted = ground (arith, b.counted, b.bounded);
  bounded = ground (arith, b.bounded);
}
next-IsBalanced k o reserving p b = record {
  counted = ground (arith, b.counted, b.bounded);
  bounded = ground (arith, b.bounded);
}
next-IsBalanced k (succeeds d) waiting p b = record {
  counted = ground (arith, b.counted, b.bounded);
  bounded = ground (arith, b.bounded);
}
next-IsBalanced k fails waiting p b = record {
  counted = ground (arith, b.counted, b.bounded);
  bounded = ground (arith, b.bounded);
}
next-IsBalanced k (succeeds d) connecting p b = record { counted = b.counted; bounded = b.bounded }
next-IsBalanced k fails connecting p b = record {
  counted = ground (arith, b.counted, b.bounded);
  bounded = ground (arith, b.bounded);
}
next-IsBalanced k (succeeds d) (checking c) p b = record {
  counted = b.counted;
  bounded = b.bounded;
}
next-IsBalanced k fails (checking c) p b = record { counted = b.counted; bounded = b.bounded }
next-IsBalanced k o (using c) p b = record {
  counted = ground (arith, b.counted, b.bounded);
  bounded = ground (arith, b.bounded);
}

step_at-IsBalanced :
    (k i : ℕ) (o : Outcome) (p : Pool) (ts : List Thread)
    → IsBalanced k p (held ts)
    → IsBalanced k (step_at i o p ts).0 (held (step_at i o p ts).1)
unfolding step_at held
step_at-IsBalanced k i o p [] b = b
step_at-IsBalanced k zero o p (t ∷ ts) b =
    let before =
      next-IsBalanced (k + held ts) o t p
        (record { counted = (let e = b.counted in omega arith); bounded = b.bounded }) in
    record { counted = (let e = before.counted in omega arith); bounded = before.bounded }
step_at-IsBalanced k (suc i) o p (t ∷ ts) b =
    let before =
      step_at-IsBalanced (k + slots t) i o p ts
        (record { counted = (let e = b.counted in omega arith); bounded = b.bounded }) in
    record { counted = (let e = before.counted in omega arith); bounded = before.bounded }

-- In any order of the threads' steps, and whatever the database makes of their calls, every reserved
-- slot stays that of an idle connection or of a thread that holds it, and there are never more than
-- the size.
pub run-IsBalanced :
    (schedule : List (ℕ × Outcome)) (p : Pool) (ts : List Thread)
    → IsBalanced 0 p (held ts)
    → IsBalanced 0 (run schedule p ts).0 (held (run schedule p ts).1)
unfolding run
run-IsBalanced [] p ts b = b
run-IsBalanced ((i, o) ∷ more) p ts b =
    run-IsBalanced more (step_at i o p ts).0 (step_at i o p ts).1 (step_at-IsBalanced 0 i o p ts b)
