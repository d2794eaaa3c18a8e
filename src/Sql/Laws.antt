-- ===== src/Sql/Laws.antt =====
-- What the service relies on of the server, and the orders of the statements.
use supernote_task_service.Common.{
  length, ℕ, ◌≤◌, ◌≡◌, ◌≢◌, refl, Bool, true, false, Option, some, List, [], ◌∷◌, arith, Text,
  text_eq, Perm,
}
use supernote_task_service.Common.Members.{Sorted, IsOrder}
use supernote_task_service.Encoding.{all_lower_hex}
use supernote_task_service.Sql.{
  Server, JoinedRow, GroupRow, TaskRow, weights_lt, text_lt, same_text, modified_order,
  joined_order, group_order,
}

-- The documented behaviour of MariaDB: `ORDER BY` rearranges the rows and sorts them, a changed row
-- is counted, a column keeps a text that fits it, and different identifiers of lowercase
-- hexadecimal digits differ to the collation.
pub record IsServer (sv : Server) : Type 0 where
  pub joined_perm :
      (le : JoinedRow → JoinedRow → Bool) (rows : List JoinedRow)
      → Perm (sv.order_joined le rows) rows
  pub joined_sorted :
      (le : JoinedRow → JoinedRow → Bool) (rows : List JoinedRow)
      → IsOrder le
      → Sorted le (sv.order_joined le rows)
  pub groups_perm :
      (le : GroupRow → GroupRow → Bool) (rows : List GroupRow) → Perm (sv.order_groups le rows) rows
  pub groups_sorted :
      (le : GroupRow → GroupRow → Bool) (rows : List GroupRow)
      → IsOrder le
      → Sorted le (sv.order_groups le rows)
  pub counts_changed : (r s : TaskRow) → r.last_modified ≢ s.last_modified → sv.counts r s ≡ true
  pub counts_group_changed :
      (r s : GroupRow) → r.last_modified ≢ s.last_modified → sv.counts_group r s ≡ true
  pub fits : (n : ℕ) (t : Text) → length t ≤ n → sv.fit n t ≡ t
  pub ids_differ :
      (a b : Text)
      → all_lower_hex a ≡ true
      → all_lower_hex b ≡ true
      → sv.weight a ≡ sv.weight b
      → a ≡ b

weights_total : (a b : List ℕ) → weights_lt a b ≡ true → weights_lt b a ≡ false
unfolding weights_lt
weights_total [] [] h = cc
weights_total [] (b ∷ bs) h = refl
weights_total (a ∷ xs) [] h = cc
weights_total (a ∷ xs) (b ∷ bs) h = ground (arith, weights_total xs bs)

weights_trans :
    (a b c : List ℕ) → weights_lt b a ≡ false → weights_lt c b ≡ false → weights_lt c a ≡ false
unfolding weights_lt
weights_trans [] b [] h k = refl
weights_trans [] [] (c ∷ cs) h k = refl
weights_trans [] (b ∷ bs) (c ∷ cs) h k = refl
weights_trans (a ∷ xs) [] c h k = cc
weights_trans (a ∷ xs) (b ∷ bs) [] h k = cc
weights_trans (a ∷ xs) (b ∷ bs) (c ∷ cs) h k = ground (arith, weights_trans xs bs cs)

weights_trichotomy :
    (a b : List ℕ) → weights_lt b a ≡ false → text_eq a b ≡ false → weights_lt a b ≡ true
unfolding weights_lt text_eq
weights_trichotomy [] [] h k = cc
weights_trichotomy [] (b ∷ bs) h k = refl
weights_trichotomy (a ∷ xs) [] h k = cc
weights_trichotomy (a ∷ xs) (b ∷ bs) h k = ground (arith, weights_trichotomy xs bs)

module _ (sv : Server) where
  -- Texts that are neither behind one another nor the same are in order.
  pub text_lt_of_ne :
      (a b : Text) → text_lt sv b a ≡ false → same_text sv a b ≡ false → text_lt sv a b ≡ true
  unfolding text_lt same_text
  text_lt_of_ne a b = weights_trichotomy (sv.weight a) (sv.weight b)

  text_total : (a b : Text) → text_lt sv a b ≡ true → text_lt sv b a ≡ false
  unfolding text_lt
  text_total a b = weights_total (sv.weight a) (sv.weight b)

  text_trans :
      (a b c : Text) → text_lt sv b a ≡ false → text_lt sv c b ≡ false → text_lt sv c a ≡ false
  unfolding text_lt
  text_trans a b c = weights_trans (sv.weight a) (sv.weight b) (sv.weight c)

  modified_total :
      (m : Option ℕ) (a : Text) (n : Option ℕ) (b : Text)
      → modified_order sv m a n b ≡ false
      → modified_order sv n b m a ≡ true
  unfolding modified_order
  modified_total m a n b h = ground (arith, text_total b a)

  modified_trans :
      (m : Option ℕ) (a : Text) (n : Option ℕ) (b : Text) (o : Option ℕ) (c : Text)
      → modified_order sv m a n b ≡ true
      → modified_order sv n b o c ≡ true
      → modified_order sv m a o c ≡ true
  unfolding modified_order
  modified_trans m a n b o c h k = ground (arith, text_trans a b c)

  pub joined_order-IsOrder : IsOrder (joined_order sv)
  unfolding joined_order
  joined_order-IsOrder = record {
    total = λ r s h.
        modified_total r.task.last_modified r.task.task_id s.task.last_modified s.task.task_id h;
    transitive = λ r s t h k.
        modified_trans r.task.last_modified r.task.task_id s.task.last_modified s.task.task_id
          t.task.last_modified t.task.task_id h k;
  }

  pub group_order-IsOrder : IsOrder (group_order sv)
  unfolding group_order
  group_order-IsOrder = record {
    total = λ r s h. modified_total r.last_modified r.task_list_id s.last_modified s.task_list_id h;
    transitive = λ r s t h k.
        modified_trans r.last_modified r.task_list_id s.last_modified s.task_list_id t.last_modified
          t.task_list_id h k;
  }

  -- What the order of a page says of two rows with a time.
  pub joined_order_le :
      (r s : JoinedRow) (m n : ℕ)
      → r.task.last_modified ≡ some m
      → s.task.last_modified ≡ some n
      → joined_order sv r s ≡ true
      → (m ≤ n) × (m ≡ n → text_lt sv s.task.task_id r.task.task_id ≡ false)
  unfolding joined_order modified_order
  joined_order_le r s m n e f h = (ground arith, λ q. ground arith)
