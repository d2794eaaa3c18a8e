-- ===== src/Api/Evolution.antt =====
-- How a table of the service may change in one call, for the tasks and for the task lists alike.
use mathlib.Core.Path.{subst}
use mathlib.Core.Logic.Or
use mathlib.Core.Logic.{◌∨₁◌, ∨₁_prop, ∥∥₁_prop, ∥∥₁_map}
use mathlib.Core.List.{mem-cons, not-mem-nil, mem-cons_self, mem-cons_of_mem, Mem-prop}
use supernote_task_service.Common.{
  ℕ, ◌≡◌, refl, sym, ap, ◌∙◌, ◌⊎◌, inl, inr, Bool, false, not, Option, some, List, [], ◌∷◌, ◌++◌,
  Mem, arith, Text, keep, map, ◌==◌,
}
use supernote_task_service.Sql.{TaskRow, GroupRow}

-- The columns that both tables have.
pub record Columns (A : Type 0) : Type 0 where
  pub id : A → Text
  pub user : A → ℕ
  pub modified : A → Option ℕ
  pub deleted : A → Bool

abbrev pub task_columns : Columns TaskRow
task_columns = record {
  id = λ r. r.task_id;
  user = λ r. r.user_id;
  modified = λ r. r.last_modified;
  deleted = λ r. r.is_deleted;
}

abbrev pub group_columns : Columns GroupRow
group_columns = record {
  id = λ r. r.task_list_id;
  user = λ r. r.user_id;
  modified = λ r. r.last_modified;
  deleted = λ r. r.is_deleted;
}

module _ {A : Type 0} (c : Columns A) (user : ℕ) where
  -- The rows of the other users, in their order.
  abbrev pub others : List A → List A
  others = keep (λ r. not (c.user r == user))

module _ {A : Type 0} (c : Columns A) (user now : ℕ) (new_id : Text) where
  -- What a write makes of a row: only an active row of the user is written, it keeps its identifier
  -- and its owner, and it gets the time of the write.
  pub record Written (r s : A) : Type 0 where
    pub active : c.deleted r ≡ false
    pub owner : c.user r ≡ user
    pub same_id : c.id s ≡ c.id r
    pub same_owner : c.user s ≡ user
    pub stamped : c.modified s ≡ some now

  pub record Created (s : A) : Type 0 where
    pub fresh_id : c.id s ≡ new_id
    pub owner : c.user s ≡ user
    pub stamped : c.modified s ≡ some now

  -- Each row is as it was or written, and at most one row follows.
  abbrev pub Evolves : List A → List A → Type 0
  Evolves [] [] = Unit
  Evolves [] (s ∷ []) = Created s
  Evolves [] (s ∷ t ∷ ss) = ⊥
  Evolves (r ∷ rs) [] = ⊥
  Evolves (r ∷ rs) (s ∷ ss) = ((s ≡ r) ⊎ Written r s) × Evolves rs ss

  pub Evolves-refl : (rs : List A) → Evolves rs rs
  Evolves-refl [] = tt
  Evolves-refl (r ∷ rs) = (inl refl, Evolves-refl rs)

  pub Evolves-append : (rs : List A) (s : A) → Created s → Evolves rs (rs ++ s ∷ [])
  Evolves-append [] s h = h
  Evolves-append (r ∷ rs) s h = (inl refl, Evolves-append rs s h)

  pub Evolves-map :
      (f : A → A) → ((r : A) → (f r ≡ r) ⊎ Written r (f r)) → (rs : List A) → Evolves rs (map f rs)
  Evolves-map f h [] = tt
  Evolves-map f h (r ∷ rs) = (h r, Evolves-map f h rs)

  -- A row that is deleted, or that is of another user, stays as it is.
  pub stays :
      (rs ss : List A) {r : A}
      → Evolves rs ss
      → ¬ ((c.deleted r ≡ false) × (c.user r ≡ user))
      → Mem r rs
      → Mem r ss
  stays [] ss e n m = absurd (not-mem-nil m)
  stays (x ∷ rs) [] e n m = absurd e
  stays (x ∷ rs) (s ∷ ss) {r} e n m =
      Or.elim Mem-prop (mem-cons.0 m)
        (λ (p : r ≡ x). elim e.0 [
          | inl q ↦ subst (λ z. Mem z (s ∷ ss)) (q ∙ sym p) mem-cons_self
          | inr w ↦ absurd (n (ap c.deleted p ∙ w.active, ap c.user p ∙ w.owner))
        ])
        (λ i. mem-cons_of_mem s (stays rs ss e.1 n i))

  -- A row behind the call was there before, or it has the time of the call and the user's number.
  pub origin :
      (rs ss : List A) {s : A}
      → Evolves rs ss
      → Mem s ss
      → Mem s rs ∨₁ ((c.modified s ≡ some now) × (c.user s ≡ user))
  origin [] [] e m = absurd (not-mem-nil m)
  origin [] (x ∷ []) {s} e m =
      Or.elim ∨₁_prop (mem-cons.0 m)
        (λ (p : s ≡ x). Or.inr (ap c.modified p ∙ e.stamped, ap c.user p ∙ e.owner))
        (λ i. absurd (not-mem-nil i))
  origin [] (x ∷ y ∷ ss) e m = absurd e
  origin (r ∷ rs) [] e m = absurd e
  origin (r ∷ rs) (x ∷ ss) {s} e m =
      Or.elim ∨₁_prop (mem-cons.0 m)
        (λ (p : s ≡ x). elim e.0 [
          | inl q ↦ Or.inl (subst (λ z. Mem z (r ∷ rs)) (sym (p ∙ q)) mem-cons_self)
          | inr w ↦ Or.inr (ap c.modified p ∙ w.stamped, ap c.user p ∙ w.same_owner)
        ])
        (λ i.
          Or.elim ∨₁_prop (origin rs ss e.1 i) (λ j. Or.inl (mem-cons_of_mem r j)) (λ w. Or.inr w))

  pub others_kept : (rs ss : List A) → Evolves rs ss → others c user ss ≡ others c user rs
  others_kept [] [] e = refl
  others_kept [] (s ∷ []) e = let o = e.owner in ground arith
  others_kept [] (s ∷ t ∷ ss) e = absurd e
  others_kept (r ∷ rs) [] e = absurd e
  others_kept (r ∷ rs) (s ∷ ss) e = elim e.0 [
    | inl q ↦ let rest = others_kept rs ss e.1 in rw q (rw rest refl)
    | inr w ↦
        let rest = others_kept rs ss e.1 in let o = w.owner in let p = w.same_owner in ground arith
  ]

  -- No row is lost: each stays in place under its identifier and its owner.
  pub lasts :
      (rs ss : List A) {r : A}
      → Evolves rs ss
      → Mem r rs
      → ∥ ((s : A) × Mem s ss × (c.id s ≡ c.id r) × (c.user s ≡ c.user r)) ∥₁
  lasts [] ss e m = absurd (not-mem-nil m)
  lasts (x ∷ rs) [] e m = absurd e
  lasts (x ∷ rs) (s ∷ ss) {r} e m =
      Or.elim ∥∥₁_prop (mem-cons.0 m)
        (λ (p : r ≡ x). elim e.0 [
          | inl q ↦ ∣ (s, mem-cons_self, ap c.id (q ∙ sym p), ap c.user (q ∙ sym p)) ∣₁
          | inr w ↦ ∣ (
            s,
            mem-cons_self,
            w.same_id ∙ ap c.id (sym p),
            w.same_owner ∙ sym w.owner ∙ ap c.user (sym p),
          ) ∣₁
        ])
        (λ i.
          ∥∥₁_map (lasts rs ss e.1 i)
            (λ (t, j, same, owner). (t, mem-cons_of_mem s j, same, owner)))
