-- ===== src/Repository/Sync/Unique.antt =====
-- Rows whose identifiers the server tells apart.
use mathlib.Core.Logic.Or
use mathlib.Core.Path.{subst}
use mathlib.Core.Bool.{false≢true}
use mathlib.Core.List.{mem-cons, not-mem-nil}
use supernote_task_service.Common.{
  ◌≡◌, ◌∙◌, sym, true, false, List, [], ◌∷◌, Text, All, Mem, text_eq, text_eq_sound, text_eq_refl,
}
use supernote_task_service.Common.Members.{All-mem, Bool_eq_prop}
use supernote_task_service.Sql.{Server, same_text}

-- Every row differs from the rows behind it in its key.
abbrev pub IsUniqueBy : {A : Type 0} → Server → (A → Text) → List A → Type 0
IsUniqueBy sv key [] = Unit
IsUniqueBy sv key (r ∷ rs) =
    All (λ s. same_text sv (key r) (key s) ≡ false) rs × IsUniqueBy sv key rs

other_id :
    {A : Type 0} (sv : Server) (key : A → Text) (a : Text) (r : A) (rs : List A)
    → All (λ s. same_text sv a (key s) ≡ false) rs
    → Mem r rs
    → same_text sv a (key r) ≡ false
other_id sv key a r rs = All-mem (λ s. same_text sv a (key s) ≡ false) rs (λ _. Bool_eq_prop)

same_text_sym : (sv : Server) (a b : Text) → same_text sv a b ≡ true → same_text sv b a ≡ true
unfolding same_text
same_text_sym sv a b h =
    let e : sv.weight a ≡ sv.weight b = text_eq_sound (sv.weight a) (sv.weight b) h in
    subst (λ w. text_eq (sv.weight b) w ≡ true) (sym e) (text_eq_refl (sv.weight b))

-- Of rows without a repetition, two with the same identifier are the same.
pub unique_elim :
    {A P : Type 0} (sv : Server) (key : A → Text) (rows : List A) (r s : A)
    → IsProp P
    → IsUniqueBy sv key rows
    → Mem r rows
    → Mem s rows
    → same_text sv (key r) (key s) ≡ true
    → (r ≡ s → P)
    → P
unique_elim sv key [] r s prop u m n h f = absurd (not-mem-nil m)
unique_elim sv key (x ∷ xs) r s prop u m n h f =
    Or.elim prop (mem-cons.0 m)
      (λ (p : r ≡ x).
        Or.elim prop (mem-cons.0 n) (λ (q : s ≡ x). f (p ∙ sym q))
          (λ j.
            let other = other_id sv key (key x) s xs u.0 j in
            absurd (
              false≢true
                (sym (subst (λ z. same_text sv (key z) (key s) ≡ false) (sym p) other) ∙ h))))
      (λ i.
        Or.elim prop (mem-cons.0 n)
          (λ (q : s ≡ x).
            let other = other_id sv key (key x) r xs u.0 i in
            let back = same_text_sym sv (key r) (key s) h in
            absurd (
              false≢true
                (sym (subst (λ z. same_text sv (key z) (key r) ≡ false) (sym q) other) ∙ back)))
          (λ j. unique_elim sv key xs r s prop u.1 i j h f))
