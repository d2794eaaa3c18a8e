-- ===== src/Api/Replica/Lookup.antt =====
-- What the client finds behind a page.
use mathlib.Core.Logic.Or
use mathlib.Core.HLevel.{⊥_prop}
use mathlib.Core.List.{mem-cons, not-mem-nil, mem-cons_self, mem-cons_of_mem}
use supernote_task_service.Common.{
  ◌≡◌, ◌≢◌, refl, ◌∙◌, sym, ap, ◌⊎◌, inl, inr, true, some, List, [], ◌∷◌, Mem, Text, text_eq,
  Bool-cases, arith,
}
use supernote_task_service.Common.Dict.{Dict, lookup, insert, lookup-insert, text_eq_iff}
use supernote_task_service.Models.{Task}
use supernote_task_service.Api.Replica.{file_all}

-- Under an identifier the client finds a task of the page that has it, or, if the page has none,
-- what it held before.
pub lookup-file_all :
    (ts : List Task) (d : Dict Task) (k : Text)
    → ((t : Task) × Mem t ts × (t.id ≡ k) × (lookup k (file_all ts d) ≡ some t))
      ⊎ ((lookup k (file_all ts d) ≡ lookup k d) × ((t : Task) → Mem t ts → t.id ≢ k))
unfolding file_all
lookup-file_all [] d k = inr (refl, λ t m. absurd (not-mem-nil m))
lookup-file_all (t ∷ ts) d k = elim (lookup-file_all ts (insert t.id t d) k) [
  | inl (s, m, e, l) ↦ inl (s, mem-cons_of_mem t m, e, l)
  | inr (l, none_there) ↦ elim (Bool-cases (text_eq t.id k)) [
    | inl same ↦
        inl (
          t,
          mem-cons_self,
          (text_eq_iff t.id k).0 same,
          l ∙ lookup-insert t.id k t d ∙ rw same refl,
        )
    | inr differ ↦ inr (
      l ∙ lookup-insert t.id k t d ∙ rw differ refl,
      λ s m e.
          Or.elim ⊥_prop (mem-cons.0 m)
            (λ (p : s ≡ t).
              let same : text_eq t.id k ≡ true =
                (text_eq_iff t.id k).1 (ap (λ (z : Task). z.id) (sym p) ∙ e) in
              ground arith)
            (λ i. none_there s i e),
    )
  ]
]
