-- ===== src/Sql.antt =====
-- The two tables that the service reads and writes, the statements that repository.py builds, as
-- data, and what MariaDB and its driver do with them. The server is a parameter: its collation, the
-- order of the rows that a statement leaves open, and which updates it counts as changes.
pub mod Laws
pub mod Tasks
pub mod Groups
pub mod Reference
use supernote_task_service.Common.{
  ℕ, zero, suc, ◌+◌, Bool, true, false, not, ◌&&◌, ◌||◌, Option, none, some, List, [], ◌∷◌, ◌++◌,
  Text, ltb, leb, ◌==◌, text_eq, if◌then◌else◌, length, take, keep, map,
}
use supernote_task_service.Common.Int.{ℤ}

-- A row of `t_schedule_task`. The columns that only the device uses are kept at the end.
pub record TaskRow : Type 0 where
  pub task_id : Text
  pub task_list_id : Option Text
  pub user_id : ℕ
  pub title : Option Text
  pub detail : Option Text
  pub last_modified : Option ℕ
  pub status : Text
  pub importance : Option Text
  pub due_time : Option ℤ
  pub completed_time : Option ℕ
  pub links : Option Text
  pub is_deleted : Bool
  pub sort : Option ℕ
  pub is_reminder_on : Bool
  pub sort_completed : Option ℕ
  pub planer_sort : Option ℕ
  pub all_sort : Option ℕ
  pub all_sort_completed : Option ℕ
  pub sort_time : Option ℕ
  pub planer_sort_time : Option ℕ
  pub all_sort_time : Option ℕ

-- A row of `t_schedule_task_group`.
pub record GroupRow : Type 0 where
  pub task_list_id : Text
  pub user_id : ℕ
  pub title : Option Text
  pub last_modified : Option ℕ
  pub is_deleted : Bool
  pub create_time : Option ℕ

pub record Tables : Type 0 where
  pub tasks : List TaskRow
  pub groups : List GroupRow

-- A row of the join of `_TASK_COLUMNS`: a task and `COALESCE(g.title, 'Inbox')`.
pub record JoinedRow : Type 0 where
  pub task : TaskRow
  pub category : Text

-- `weight` gives the collation weights by which the server compares texts.
-- `order_joined le rows` and `order_groups le rows` are the rows in an order that `ORDER BY` allows.
-- `counts old new` tells whether a matched row that goes from `old` to `new` is counted by an
-- `UPDATE`: without the driver's FOUND_ROWS flag an unchanged row is not.
-- `fit n t` is what a column `varchar(n)` keeps of the text `t`, where the server takes it.
pub record Server : Type 0 where
  pub weight : Text → List ℕ
  pub order_joined : (JoinedRow → JoinedRow → Bool) → List JoinedRow → List JoinedRow
  pub order_groups : (GroupRow → GroupRow → Bool) → List GroupRow → List GroupRow
  pub counts : TaskRow → TaskRow → Bool
  pub counts_group : GroupRow → GroupRow → Bool
  pub fit : ℕ → Text → Text

-- Lexicographic comparison of weights.
unfoldable pub weights_lt : List ℕ → List ℕ → Bool
weights_lt [] [] = false
weights_lt [] (b ∷ bs) = true
weights_lt (a ∷ as') [] = false
weights_lt (a ∷ as') (b ∷ bs) = ltb a b || (a == b && weights_lt as' bs)

-- A test on a nullable column: NULL passes none.
abbrev pub column {ℓ} : {A : Type ℓ} → (A → Bool) → Option A → Bool
column p none = false
column p (some a) = p a

-- A nullable key under `ORDER BY … ASC`: NULL comes first.
abbrev null_first {ℓ} : {A : Type ℓ} → (A → A → Bool) → Option A → Option A → Bool
null_first lt none none = false
null_first lt none (some b) = true
null_first lt (some a) none = false
null_first lt (some a) (some b) = lt a b

abbrev pub inbox : Text
inbox = b'I' ∷ b'n' ∷ b'b' ∷ b'o' ∷ b'x' ∷ []

-- `COALESCE(g.title, 'Inbox')`
abbrev pub coalesce : Option Text → Text
coalesce none = inbox
coalesce (some t) = t

-- A task that joins no group has one row, with NULL for the title.
unfoldable pub join_row : TaskRow → List (Option Text) → List JoinedRow
join_row t [] = record { task = t; category = inbox } ∷ []
join_row t (g ∷ gs) = map (λ title. record { task = t; category = coalesce title }) (g ∷ gs)

module _ (sv : Server) where
  unfoldable pub same_text : Text → Text → Bool
  same_text a b = text_eq (sv.weight a) (sv.weight b)

  unfoldable pub text_lt : Text → Text → Bool
  unfolding weights_lt
  text_lt a b = weights_lt (sv.weight a) (sv.weight b)

  -- `a <=> b`
  unfoldable pub null_safe_same : Option Text → Option Text → Bool
  unfolding same_text
  null_safe_same none none = true
  null_safe_same none (some b) = false
  null_safe_same (some a) none = false
  null_safe_same (some a) (some b) = same_text a b

  -- `ORDER BY last_modified ASC, id ASC`
  unfoldable pub modified_order : Option ℕ → Text → Option ℕ → Text → Bool
  unfolding text_lt
  modified_order m a n b = null_first ltb m n || (not (null_first ltb n m) && not (text_lt b a))

  unfoldable pub joined_order : JoinedRow → JoinedRow → Bool
  unfolding modified_order
  joined_order r s =
      modified_order r.task.last_modified r.task.task_id s.task.last_modified s.task.task_id

  unfoldable pub group_order : GroupRow → GroupRow → Bool
  unfolding modified_order
  group_order r s = modified_order r.last_modified r.task_list_id s.last_modified s.task_list_id

  -- `ORDER BY t.task_id ASC`, `ORDER BY task_list_id ASC` and `ORDER BY title`
  unfoldable pub joined_id_order : JoinedRow → JoinedRow → Bool
  unfolding text_lt
  joined_id_order r s = not (text_lt s.task.task_id r.task.task_id)

  unfoldable pub group_id_order : GroupRow → GroupRow → Bool
  unfolding text_lt
  group_id_order r s = not (text_lt s.task_list_id r.task_list_id)

  unfoldable pub group_title_order : GroupRow → GroupRow → Bool
  unfolding text_lt
  group_title_order r s = not (null_first text_lt s.title r.title)

  -- the titles of the groups that a task joins
  unfoldable pub joined_titles : Option Text → List GroupRow → List (Option Text)
  unfolding same_text
  joined_titles l [] = []
  joined_titles l (g ∷ gs) =
      if column (λ i. same_text i g.task_list_id) l
      then g.title ∷ joined_titles l gs
      else joined_titles l gs

  -- `LEFT JOIN t_schedule_task_group g ON t.task_list_id = g.task_list_id`
  unfoldable pub left_join : List TaskRow → List GroupRow → List JoinedRow
  unfolding joined_titles join_row
  left_join [] gs = []
  left_join (t ∷ ts) gs = join_row t (joined_titles t.task_list_id gs) ++ left_join ts gs
