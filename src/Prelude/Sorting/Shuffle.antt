-- ===== src/Prelude/Sorting/Shuffle.antt =====
-- Elements of distinct keys: sorting forgets their order.
use mathlib.Core.List.{Permᴰ}
use theta_protocol_subchain.Prelude.Lists.{All}
use theta_protocol_subchain.Prelude.Sorting.{
  insert_by, sort_from, IsSorted, IsDistinct, insert_by_comm,
}
use Prim.Native.Nat.{ℕ}
use mathlib.Core.Path.{◌≡◌, refl, sym, subst, ap, ◌∙◌}
use mathlib.Core.List.{List, [], ◌∷◌, ◌++◌}

module _ {A : Type 0} where
  All-Permᴰ {κ} : (P : A → Type κ) {xs ys : List A} → Permᴰ xs ys → All P xs → All P ys
  All-Permᴰ P Permᴰ.nil h = tt
  All-Permᴰ P (Permᴰ.cons e p) h = (subst P e h.0, All-Permᴰ P p h.1)
  All-Permᴰ P (Permᴰ.swap e f) h = (subst P f h.1.0, (subst P e h.0, h.1.1))
  All-Permᴰ P (Permᴰ.trans p q) h = All-Permᴰ P q (All-Permᴰ P p h)

  All-prefix {κ} : (P : A → Type κ) (xs ys : List A) → All P (xs ++ ys) → All P xs
  All-prefix P [] ys h = tt
  All-prefix P (x ∷ xs) ys h = (h.0, All-prefix P xs ys h.1)

module _ {A : Type 0} (key : A → ℕ) where
  abbrev Fresh : A → List A → Type 0
  Fresh x ys = All (λ y. ¬ (key x ≡ key y)) ys

  IsDistinct-Permᴰ : {xs ys : List A} → Permᴰ xs ys → IsDistinct key xs → IsDistinct key ys
  IsDistinct-Permᴰ Permᴰ.nil h = tt
  IsDistinct-Permᴰ (Permᴰ.cons {l₂ = l} e p) h =
      (subst (λ x. Fresh x l) e (All-Permᴰ _ p h.0), IsDistinct-Permᴰ p h.1)
  IsDistinct-Permᴰ (Permᴰ.swap {l = l} e f) h = (
    (λ same. h.0.0 (ap key e ∙ sym same ∙ ap key (sym f)), subst (λ x. Fresh x l) f h.1.0),
    (subst (λ x. Fresh x l) e h.0.1, h.1.1),
  )
  IsDistinct-Permᴰ (Permᴰ.trans p q) h = IsDistinct-Permᴰ q (IsDistinct-Permᴰ p h)

  pub sort_from-Permᴰ :
      (done : List A) {xs ys : List A}
      → Permᴰ xs ys
      → IsDistinct key xs
      → sort_from key done xs ≡ sort_from key done ys
  unfolding sort_from
  sort_from-Permᴰ done Permᴰ.nil h = refl
  sort_from-Permᴰ done (Permᴰ.cons {b = b} {l₁ = l} e p) h =
      ap (λ x. sort_from key (insert_by key x done) l) e
      ∙ sort_from-Permᴰ (insert_by key b done) p h.1
  sort_from-Permᴰ done (Permᴰ.swap {a = a} {b = b} {a' = a'} {b' = b'} {l = l} e f) h =
      ap (λ x. sort_from key x l)
        (insert_by_comm key b a done (λ same. h.0.0 (sym same))
          ∙ ap (λ x. insert_by key x (insert_by key b done)) e
          ∙ ap (λ x. insert_by key b' (insert_by key x done)) f)
  sort_from-Permᴰ done (Permᴰ.trans p q) h =
      sort_from-Permᴰ done p h ∙ sort_from-Permᴰ done q (IsDistinct-Permᴰ p h)

  pub IsSorted-prefix : (xs ys : List A) → IsSorted key (xs ++ ys) → IsSorted key xs
  IsSorted-prefix [] ys h = tt
  IsSorted-prefix (x ∷ xs) ys h = (All-prefix _ xs ys h.0, IsSorted-prefix xs ys h.1)
