-- ===== src/Database.antt =====
-- src/supernote_task_service/db.py: the connection pool, as the threads that share it move it. A
-- thread moves from one access of the shared state to the next: the queue and the counter are each
-- behind a lock, so that such an access is one step. A connection is a number.
pub mod Slots
pub mod Runs
pub mod Owners
pub mod Users
pub mod Exposed
mod Tests
use supernote_task_service.Common.{
  ℕ, zero, suc, ◌+◌, ◌-◌, Option, List, [], ◌∷◌, ltb, if◌then◌else◌, length,
}

-- `db_pool_size`, `_created` and the queue `_pool`, last in first out. A setting below 1, which would
-- make the queue unbounded but let no slot be reserved, is a size of 0.
pub record Pool : Type 0 where
  pub size : ℕ
  pub created : ℕ
  pub idle : List ℕ

-- Where a thread stands: outside of `cursor()`, behind the `queue.Empty` of `get_nowait`, in the
-- bounded wait, before `_connect` with a slot reserved, before `ping`, and in the body of the `with`.
pub data Thread : Type 0 where
  outside reserving waiting connecting : Thread
  checking using : ℕ → Thread

-- What the database makes of a thread's call, with the connection that it may give; a thread that
-- fails in the wait has waited for `db_connect_timeout`.
pub data Outcome : Type 0 where
  succeeds : ℕ → Outcome
  fails : Outcome

-- `_pool.get_nowait()` in `_acquire`
unfoldable pub get_nowait : Pool → Pool × Thread
get_nowait p = elim p.idle [ [] ↦ (p, reserving) | c ∷ cs ↦ (record p { idle = cs }, checking c) ]

-- `_try_reserve_slot`, and where `_acquire` goes on
unfoldable pub try_reserve_slot : Pool → Pool × Thread
try_reserve_slot p =
    if ltb p.created p.size
    then (record p { created = p.created + 1 }, connecting)
    else (p, waiting)

-- `_unreserve_slot`
unfoldable pub unreserve_slot : Pool → Pool
unreserve_slot p = record p { created = p.created - 1 }

-- `_pool.get(timeout=…)`: a connection, or the exception at the end of the wait.
unfoldable pub get_wait : Outcome → Pool → Pool × Thread
get_wait (succeeds d) p = elim p.idle [
  | [] ↦ (p, waiting)
  | c ∷ cs ↦ (record p { idle = cs }, checking c)
]
get_wait fails p = elim p.idle [ [] ↦ (p, outside) | c ∷ cs ↦ (record p { idle = cs }, checking c) ]

-- `_release`, with the branch of `queue.Full`
unfoldable pub release : ℕ → Pool → Pool
unfolding unreserve_slot
release c p =
    if ltb (length p.idle) p.size then record p { idle = c ∷ p.idle } else unreserve_slot p

-- The next step of a thread in `cursor()`. A dead connection is replaced under the same slot.
unfoldable pub next : Outcome → Thread → Pool → Pool × Thread
unfolding get_nowait try_reserve_slot unreserve_slot get_wait release
next o outside p = get_nowait p
next o reserving p = try_reserve_slot p
next o waiting p = get_wait o p
next (succeeds c) connecting p = (p, using c)
next fails connecting p = (unreserve_slot p, outside)
next (succeeds d) (checking c) p = (p, using c)
next fails (checking c) p = (p, connecting)
next o (using c) p = (release c p, outside)

-- One step of the thread at a place.
unfoldable pub step_at : ℕ → Outcome → Pool → List Thread → Pool × List Thread
unfolding next
step_at i o p [] = (p, [])
step_at zero o p (t ∷ ts) = let (p', t') = next o t p in (p', t' ∷ ts)
step_at (suc i) o p (t ∷ ts) = let (p', ts') = step_at i o p ts in (p', t ∷ ts')

-- A run, in any order of the threads' steps.
unfoldable pub run : List (ℕ × Outcome) → Pool → List Thread → Pool × List Thread
run [] p ts = (p, ts)
run ((i, o) ∷ more) p ts = let (p', ts') = step_at i o p ts in run more p' ts'

-- `Database.__init__`
unfoldable pub new_pool : ℕ → Pool
new_pool size = record { size = size; created = 0; idle = [] }

unfoldable pub all_outside : ℕ → List Thread
all_outside zero = []
all_outside (suc n) = outside ∷ all_outside n

-- `close`: what is idle is taken out, and closed, until the queue is empty. The counter stays.
unfoldable pub close_idle : List ℕ → List ℕ → List ℕ × List ℕ
close_idle [] closed = ([], closed)
close_idle (c ∷ cs) closed = close_idle cs (c ∷ closed)

-- The pool, and the connections that were closed, the last one first.
unfoldable pub close : Pool → Pool × List ℕ
unfolding close_idle
close p = let (rest, closed) = close_idle p.idle [] in (record p { idle = rest }, closed)
