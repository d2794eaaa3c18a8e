-- ===== src/Common/Members.antt =====
-- Membership in kept, cut and sorted lists.
use mathlib.Core.Path.{◌≡◌, refl, sym, subst, ap, ◌∙◌}
use mathlib.Core.Logic.Or
use mathlib.Core.Logic.{◌∨₁◌, ◌≢◌, inl, inr}
use mathlib.Core.Bool.{Bool, true, false, false≢true}
use mathlib.Core.Option.{some}
use mathlib.Core.List.{
  List, [], ◌∷◌, Mem, mem-cons, not-mem-nil, mem-cons_self, mem-cons_of_mem, mem-append, Mem-prop,
}
use mathlib.Core.HLevel.{×_prop}
use Prim.Native.Nat.{ℕ, zero, suc}
use supernote_task_service.Common.Tests.{Bool-cases}
use supernote_task_service.Common.Lists.{
  All, length, take, drop, keep, first?, last?, take-append-drop,
}

pub Bool_eq_prop : {a b : Bool} → IsProp (a ≡ b)
Bool_eq_prop = hlevel

module _ {ℓ} {A : Type ℓ} where
  pub mem_take-or-drop :
      (n : ℕ) (xs : List A) {a : A} → Mem a xs → Mem a (take n xs) ∨₁ Mem a (drop n xs)
  mem_take-or-drop n xs {a} m = mem-append.0 (subst (Mem a) (sym (take-append-drop n xs)) m)

  pub mem-keep : (p : A → Bool) (xs : List A) {a : A} → Mem a (keep p xs) → Mem a xs × (p a ≡ true)
  mem-keep p [] m = absurd (not-mem-nil m)
  mem-keep p (x ∷ xs) {a} m = elim (Bool-cases (p x)) [
    | inl e ↦
        let m' : Mem a (x ∷ keep p xs) = rw e at m in
        Or.elim (×_prop Mem-prop Bool_eq_prop) (mem-cons.0 m') (λ q. (rw q mem-cons_self, rw q e))
          (λ r. (mem-cons_of_mem x (mem-keep p xs r).0, (mem-keep p xs r).1))
    | inr e ↦
        let r : Mem a (keep p xs) = rw e at m in
        (mem-cons_of_mem x (mem-keep p xs r).0, (mem-keep p xs r).1)
  ]

  pub mem-keep_of_mem :
      (p : A → Bool) (xs : List A) {a : A} → Mem a xs → p a ≡ true → Mem a (keep p xs)
  mem-keep_of_mem p [] m h = absurd (not-mem-nil m)
  mem-keep_of_mem p (x ∷ xs) {a} m h = elim (Bool-cases (p x)) [
    | inl e ↦ rw e (
        Or.elim Mem-prop (mem-cons.0 m) (λ q. rw q mem-cons_self)
          (λ r. mem-cons_of_mem x (mem-keep_of_mem p xs r h)))
    | inr e ↦ rw e (
        Or.elim Mem-prop (mem-cons.0 m)
          (λ (q : a ≡ x). absurd (false≢true (sym e ∙ subst (λ y. p y ≡ true) q h)))
          (λ r. mem-keep_of_mem p xs r h))
  ]

  pub mem-last? : (xs : List A) {a : A} → last? xs ≡ some a → Mem a xs
  mem-last? [] e = cc
  mem-last? (x ∷ []) {a} e = let q : x ≡ a = cc in subst (λ z. Mem z (x ∷ [])) q mem-cons_self
  mem-last? (x ∷ y ∷ ys) e = mem-cons_of_mem x (mem-last? (y ∷ ys) e)

  pub mem-first? : (xs : List A) {a : A} → first? xs ≡ some a → Mem a xs
  mem-first? [] e = cc
  mem-first? (x ∷ xs) {a} e = let q : x ≡ a = cc in subst (λ z. Mem z (x ∷ xs)) q mem-cons_self

  pub mem_of_mem-drop : (n : ℕ) (xs : List A) {a : A} → Mem a (drop n xs) → Mem a xs
  mem_of_mem-drop zero xs m = m
  mem_of_mem-drop (suc n) [] m = m
  mem_of_mem-drop (suc n) (x ∷ xs) m = mem-cons_of_mem x (mem_of_mem-drop n xs m)

  pub mem_of_mem-take : (n : ℕ) (xs : List A) {a : A} → Mem a (take n xs) → Mem a xs
  mem_of_mem-take zero xs m = absurd (not-mem-nil m)
  mem_of_mem-take (suc n) [] m = m
  mem_of_mem-take (suc n) (x ∷ xs) m =
      Or.elim Mem-prop (mem-cons.0 m) (λ q. rw q mem-cons_self)
        (λ r. mem-cons_of_mem x (mem_of_mem-take n xs r))

  pub drop_short : (n : ℕ) (xs : List A) → length (take n xs) ≢ n → drop n xs ≡ []
  drop_short zero xs h = absurd (h refl)
  drop_short (suc n) [] h = refl
  drop_short (suc n) (x ∷ xs) h = drop_short n xs (λ e. h (ap suc e))

  -- Every item is at or below what follows it.
  abbrev pub Sorted : (A → A → Bool) → List A → Type ℓ
  Sorted le [] = Unit
  Sorted le (x ∷ xs) = ((y : A) → Mem y xs → le x y ≡ true) × Sorted le xs

  pub last-le-drop :
      (le : A → A → Bool) (n : ℕ) (xs : List A) {a b : A}
      → Sorted le xs
      → last? (take n xs) ≡ some a
      → Mem b (drop n xs)
      → le a b ≡ true
  last-le-drop le zero xs h e m = cc
  last-le-drop le (suc n) [] h e m = cc
  last-le-drop le (suc zero) (x ∷ xs) {a} {b} h e m =
      let q : x ≡ a = cc in subst (λ z. le z b ≡ true) q (h.0 b m)
  last-le-drop le (suc (suc n)) (x ∷ []) h e m = absurd (not-mem-nil m)
  last-le-drop le (suc (suc n)) (x ∷ y ∷ ys) h e m = last-le-drop le (suc n) (y ∷ ys) h.1 e m

  -- An order by which a server can sort: any two items are ordered, and the order is transitive.
  pub record IsOrder (le : A → A → Bool) : Type ℓ where
    pub total : (a b : A) → le a b ≡ false → le b a ≡ true
    pub transitive : (a b c : A) → le a b ≡ true → le b c ≡ true → le a c ≡ true

module _ {ℓ} {A : Type ℓ} where
  -- In a sorted list the first item is at or below every item.
  pub first-le :
      (le : A → A → Bool) (n : ℕ) (xs : List A) {a b : A}
      → IsOrder le
      → Sorted le xs
      → first? (take n xs) ≡ some a
      → Mem b xs
      → le a b ≡ true
  first-le le zero xs o h e m = cc
  first-le le (suc n) [] o h e m = cc
  first-le le (suc n) (x ∷ xs) {a} {b} o h e m =
      let q : x ≡ a = cc in
      subst (λ z. le z b ≡ true) q
        (Or.elim Bool_eq_prop (mem-cons.0 m)
          (λ (p : b ≡ x). subst (λ z. le x z ≡ true) (sym p) (refl-le x)) (λ m'. h.0 b m'))
    where
      refl-le : (y : A) → le y y ≡ true
      refl-le y = elim (Bool-cases (le y y)) [ inl p ↦ p | inr p ↦ o.total y y p ]

  -- The last item of a sorted list that is cut is at or above every item that is left.
  pub le-last :
      (le : A → A → Bool) (n : ℕ) (xs : List A) {a b : A}
      → IsOrder le
      → Sorted le xs
      → last? (take n xs) ≡ some a
      → Mem b (take n xs)
      → le b a ≡ true
  le-last le n xs {a} {b} o h e m = last_of (take n xs) (Sorted-take n xs h) e m
    where
      Sorted-take : (k : ℕ) (ys : List A) → Sorted le ys → Sorted le (take k ys)
      Sorted-take zero ys s = tt
      Sorted-take (suc k) [] s = tt
      Sorted-take (suc k) (y ∷ ys) s = (λ z i. s.0 z (mem_of_mem-take k ys i), Sorted-take k ys s.1)

      refl-le : (y : A) → le y y ≡ true
      refl-le y = elim (Bool-cases (le y y)) [ inl p ↦ p | inr p ↦ o.total y y p ]

      last_of : (ys : List A) → Sorted le ys → last? ys ≡ some a → Mem b ys → le b a ≡ true
      last_of [] s p i = cc
      last_of (y ∷ []) s p i =
          let q : y ≡ a = cc in
          Or.elim Bool_eq_prop (mem-cons.0 i)
            (λ (r : b ≡ y).
              subst (λ z. le b z ≡ true) q (subst (λ z. le z y ≡ true) (sym r) (refl-le y)))
            (λ i'. absurd (not-mem-nil i'))
      last_of (y ∷ z ∷ zs) s p i =
          Or.elim Bool_eq_prop (mem-cons.0 i)
            (λ (r : b ≡ y). subst (λ w. le w a ≡ true) (sym r) (s.0 a (mem-last? (z ∷ zs) p)))
            (λ i'. last_of (z ∷ zs) s.1 p i')

  -- What holds of all items holds of each.
  pub All-mem {κ} :
      (P : A → Type κ) (xs : List A) {a : A} → ((x : A) → IsProp (P x)) → All P xs → Mem a xs → P a
  All-mem P [] prop h m = absurd (not-mem-nil m)
  All-mem P (x ∷ xs) {a} prop h m =
      Or.elim (prop a) (mem-cons.0 m) (λ (q : a ≡ x). subst P (sym q) h.0)
        (λ i. All-mem P xs prop h.1 i)
