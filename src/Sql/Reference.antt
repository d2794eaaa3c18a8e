-- ===== src/Sql/Reference.antt =====
-- A server that keeps the documented behaviour, on which the statements can be run: it compares
-- texts code point by code point, sorts by insertion and counts the rows whose time changes.
use mathlib.Core.Path.{subst}
use mathlib.Core.Logic.Or
use mathlib.Core.List.{mem-cons, not-mem-nil}
use mathlib.Core.List.Perm
use supernote_task_service.Common.{
  zero, suc, take, length, ◌≤◌, Text, ap, arith, ℕ, ◌≡◌, ◌≢◌, refl, sym, Bool, true, false, not,
  Option, none, some, List, [], ◌∷◌, Perm, arith, ◌==◌, if◌then◌else◌, Bool-cases, inl, inr,
}
use supernote_task_service.Common.Members.{Sorted, IsOrder, Bool_eq_prop}
use supernote_task_service.Sql.{TaskRow, Server}
use supernote_task_service.Sql.Laws.{IsServer}

module _ {A : Type 0} (le : A → A → Bool) where
  unfoldable pub place : A → List A → List A
  place a [] = a ∷ []
  place a (x ∷ xs) = let rest = place a xs in if le a x then a ∷ x ∷ xs else x ∷ rest

  unfoldable pub arrange : List A → List A
  unfolding place
  arrange [] = []
  arrange (x ∷ xs) = place x (arrange xs)

  place-perm : (a : A) (xs : List A) → Perm (place a xs) (a ∷ xs)
  unfolding place
  place-perm a [] = Perm.refl (a ∷ [])
  place-perm a (x ∷ xs) = elim (Bool-cases (le a x)) [
    | inl e ↦ rw e (Perm.refl (a ∷ x ∷ xs))
    | inr e ↦ rw e (Perm.trans (Perm.cons x (place-perm a xs)) (Perm.swap a x xs))
  ]

  pub arrange-perm : (xs : List A) → Perm (arrange xs) xs
  unfolding arrange
  arrange-perm [] = Perm.refl []
  arrange-perm (x ∷ xs) = Perm.trans (place-perm x (arrange xs)) (Perm.cons x (arrange-perm xs))

  place-Sorted : (o : IsOrder le) (a : A) (xs : List A) → Sorted le xs → Sorted le (place a xs)
  unfolding place
  place-Sorted o a [] s = (λ y m. absurd (not-mem-nil m), tt)
  place-Sorted o a (x ∷ xs) s = elim (Bool-cases (le a x)) [
    | inl e ↦ rw e (
      λ y m.
          Or.elim Bool_eq_prop (mem-cons.0 m) (λ (p : y ≡ x). subst (λ z. le a z ≡ true) (sym p) e)
            (λ i. o.transitive a x y e (s.0 y i)),
      s,
    )
    | inr e ↦ rw e (
      λ y m.
          Or.elim Bool_eq_prop (mem-cons.0 ((Perm.mem_iff (place-perm a xs)).0 m))
            (λ (p : y ≡ a). subst (λ z. le x z ≡ true) (sym p) (o.total a x e)) (λ i. s.0 y i),
      place-Sorted o a xs s.1,
    )
  ]

  pub arrange-Sorted : (o : IsOrder le) (xs : List A) → Sorted le (arrange xs)
  unfolding arrange
  arrange-Sorted o [] = tt
  arrange-Sorted o (x ∷ xs) = place-Sorted o x (arrange xs) (arrange-Sorted o xs)

abbrev differ : Option ℕ → Option ℕ → Bool
differ none none = false
differ none (some n) = true
differ (some m) none = true
differ (some m) (some n) = not (m == n)

differ_of_ne : (m n : Option ℕ) → m ≢ n → differ m n ≡ true
differ_of_ne none none h = absurd (h refl)
differ_of_ne none (some n) h = refl
differ_of_ne (some m) none h = refl
differ_of_ne (some m) (some n) h = ground arith

take_all : (n : ℕ) (t : Text) → length t ≤ n → take n t ≡ t
take_all zero [] h = refl
take_all zero (c ∷ cs) h = absurd (omega arith)
take_all (suc n) [] h = refl
take_all (suc n) (c ∷ cs) h = ap (λ ds. c ∷ ds) (take_all n cs (omega arith))

abbrev pub reference : Server
reference = record {
  weight = λ t. t;
  order_joined = λ le rows. arrange le rows;
  order_groups = λ le rows. arrange le rows;
  counts = λ r s. differ r.last_modified s.last_modified;
  counts_group = λ r s. differ r.last_modified s.last_modified;
  fit = λ n t. take n t;
}

pub reference-IsServer : IsServer reference
reference-IsServer = record {
  joined_perm = λ le rows. arrange-perm le rows;
  joined_sorted = λ le rows o. arrange-Sorted le o rows;
  groups_perm = λ le rows. arrange-perm le rows;
  groups_sorted = λ le rows o. arrange-Sorted le o rows;
  counts_changed = λ r s h. differ_of_ne r.last_modified s.last_modified h;
  counts_group_changed = λ r s h. differ_of_ne r.last_modified s.last_modified h;
  fits = λ n t h. take_all n t h;
  ids_differ = λ a b _ _ e. e;
}

same_time : (m : Option ℕ) → differ m m ≡ false
same_time none = refl
same_time (some n) = ground arith

-- It counts no unchanged row.
pub same_uncounted : (r : TaskRow) → reference.counts r r ≡ false
same_uncounted r = same_time r.last_modified
