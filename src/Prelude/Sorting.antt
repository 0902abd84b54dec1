-- ===== src/Prelude/Sorting.antt =====
-- `sort.Sort` as an insertion sort by a numeric key: what Go runs on up to twelve elements. On
-- longer slices Go orders elements of one key in some other way; distinct keys leave no choice.
pub mod Shuffle
use theta_protocol_subchain.Prelude.Tests.{ltb, if◌then◌else◌, Bool-cases}
use theta_protocol_subchain.Prelude.Lists.{length, All, In, All-In, In-append_right}
use Prim.Native.Nat.{ℕ, suc, ◌+◌, ◌≤◌}
use mathlib.Core.Path.{◌≡◌, refl, sym, subst, ◌∙◌}
use mathlib.Core.Logic.{◌⊎◌, inl, inr}
use mathlib.Core.List.{List, [], ◌∷◌, ◌++◌, append-nil, append_assoc}
use native.Mathlib.Omega.{arith}

module _ {ℓ} {A : Type ℓ} (key : A → ℕ) where
  -- The last element sinks past those of a greater key.
  unfoldable pub insert_by : A → List A → List A
  insert_by x [] = x ∷ []
  insert_by x (y ∷ ys) = if ltb (key x) (key y) then x ∷ y ∷ ys else y ∷ insert_by x ys

  unfoldable pub sort_from : List A → List A → List A
  sort_from done [] = done
  sort_from done (x ∷ xs) = sort_from (insert_by x done) xs

  unfoldable pub sort_by : List A → List A
  unfolding sort_from insert_by
  sort_by xs = sort_from [] xs

  -- In order of the keys, equal keys allowed.
  abbrev pub IsSorted : List A → Type 0
  IsSorted [] = Unit
  IsSorted (x ∷ xs) = All (λ y. key x ≤ key y) xs × IsSorted xs

  -- No key stands twice.
  abbrev pub IsDistinct : List A → Type 0
  IsDistinct [] = Unit
  IsDistinct (x ∷ xs) = All (λ y. ¬ (key x ≡ key y)) xs × IsDistinct xs

module _ {A : Type 0} (key : A → ℕ) where
  pub In-insert_by : (a x : A) (ys : List A) → In a (insert_by key x ys) → (a ≡ x) ⊎ In a ys
  unfolding insert_by
  In-insert_by a x [] h = h
  In-insert_by a x (y ∷ ys) h = elim (Bool-cases (ltb (key x) (key y))) [
    | inl before ↦ rw (before, if◌then◌else◌) at h
    | inr after ↦ elim (rw after at h) [
      | inl e ↦ inr (inl e)
      | inr i ↦ elim (In-insert_by a x ys i) [ inl e ↦ inl e | inr j ↦ inr (inr j) ]
    ]
  ]

  pub In-insert_by_self : (x : A) (ys : List A) → In x (insert_by key x ys)
  unfolding insert_by
  In-insert_by_self x [] = inl refl
  In-insert_by_self x (y ∷ ys) = elim (Bool-cases (ltb (key x) (key y))) [
    | inl before ↦ rw before (inl refl)
    | inr after ↦ rw after (inr (In-insert_by_self x ys))
  ]

  pub In-insert_by_old : (a x : A) (ys : List A) → In a ys → In a (insert_by key x ys)
  unfolding insert_by
  In-insert_by_old a x [] h = absurd h
  In-insert_by_old a x (y ∷ ys) h = elim (Bool-cases (ltb (key x) (key y))) [
    | inl before ↦ rw before (inr h)
    | inr after ↦ rw after (elim h [ inl e ↦ inl e | inr i ↦ inr (In-insert_by_old a x ys i) ])
  ]

  pub insert_by_comm :
      (x y : A) (zs : List A)
      → ¬ (key x ≡ key y)
      → insert_by key x (insert_by key y zs) ≡ insert_by key y (insert_by key x zs)
  unfolding insert_by
  insert_by_comm x y [] h = ground arith
  insert_by_comm x y (z ∷ zs) h = ground (arith, insert_by_comm x y zs)

  length-insert_by : (x : A) (ys : List A) → length (insert_by key x ys) ≡ suc (length ys)
  unfolding insert_by
  length-insert_by x [] = refl
  length-insert_by x (y ∷ ys) = ground (arith, length-insert_by x ys)

  All-insert_by {κ} :
      (P : A → Type κ) (x : A) (ys : List A) → P x → All P ys → All P (insert_by key x ys)
  unfolding insert_by
  All-insert_by P x [] p h = (p, tt)
  All-insert_by P x (y ∷ ys) p h = elim (Bool-cases (ltb (key x) (key y))) [
    | inl before ↦ rw before (p, h)
    | inr after ↦ rw after (h.0, All-insert_by P x ys p h.1)
  ]

  All-le_trans :
      (x y : A) (zs : List A)
      → key x ≤ key y
      → All (λ z. key y ≤ key z) zs
      → All (λ z. key x ≤ key z) zs
  All-le_trans x y [] le h = tt
  All-le_trans x y (z ∷ zs) le h = (omega (arith, h.0), All-le_trans x y zs le h.1)

  insert_by-IsSorted : (x : A) (ys : List A) → IsSorted key ys → IsSorted key (insert_by key x ys)
  unfolding insert_by
  insert_by-IsSorted x [] h = (tt, tt)
  insert_by-IsSorted x (y ∷ ys) h = elim (Bool-cases (ltb (key x) (key y))) [
    | inl before ↦
        rw before (let le : key x ≤ key y = ground arith in ((le, All-le_trans x y ys le h.0), h))
    | inr after ↦
        rw after
          (All-insert_by (λ z. key y ≤ key z) x ys (ground arith) h.0, insert_by-IsSorted x ys h.1)
  ]

  sort_from-IsSorted : (done xs : List A) → IsSorted key done → IsSorted key (sort_from key done xs)
  unfolding sort_from
  sort_from-IsSorted done [] h = h
  sort_from-IsSorted done (x ∷ xs) h =
      sort_from-IsSorted (insert_by key x done) xs (insert_by-IsSorted x done h)

  pub sort_by-IsSorted : (xs : List A) → IsSorted key (sort_by key xs)
  unfolding sort_by
  sort_by-IsSorted xs = sort_from-IsSorted [] xs tt

  -- The last of a sorted list stays last.
  insert_by_last :
      (x : A) (ys : List A) → All (λ y. key y ≤ key x) ys → insert_by key x ys ≡ ys ++ x ∷ []
  unfolding insert_by
  insert_by_last x [] h = refl
  insert_by_last x (y ∷ ys) h = ground (arith, insert_by_last x ys h.1)

  IsSorted-split :
      (ys : List A) (x : A) (zs : List A)
      → IsSorted key (ys ++ x ∷ zs)
      → All (λ y. key y ≤ key x) ys
  IsSorted-split [] x zs h = tt
  IsSorted-split (y ∷ ys) x zs h = (
    All-In _ x (ys ++ x ∷ zs) h.0 (In-append_right x ys (x ∷ zs) (inl refl)),
    IsSorted-split ys x zs h.1,
  )

  sort_from_sorted :
      (done xs : List A) → IsSorted key (done ++ xs) → sort_from key done xs ≡ done ++ xs
  unfolding sort_from
  sort_from_sorted done [] h = sym (append-nil done)
  sort_from_sorted done (x ∷ xs) h = rw (insert_by_last x done (IsSorted-split done x xs h)) (
      sort_from_sorted (done ++ x ∷ []) xs (rw (append_assoc done (x ∷ []) xs) h)
      ∙ append_assoc done (x ∷ []) xs)

  -- Sorting a sorted list changes nothing.
  pub sort_by_sorted : (xs : List A) → IsSorted key xs → sort_by key xs ≡ xs
  unfolding sort_by
  sort_by_sorted xs h = sort_from_sorted [] xs h

  sort_from-append :
      (done xs ys : List A)
      → sort_from key done (xs ++ ys) ≡ sort_from key (sort_from key done xs) ys
  unfolding sort_from
  sort_from-append done [] ys = refl
  sort_from-append done (x ∷ xs) ys = sort_from-append (insert_by key x done) xs ys

  -- What `append` and a sort do to one more element.
  pub sort_by-concat :
      (xs : List A) (x : A) → sort_by key (xs ++ x ∷ []) ≡ insert_by key x (sort_by key xs)
  unfolding sort_by sort_from
  sort_by-concat xs x = sort_from-append [] xs (x ∷ [])

  -- Of an element with a key of its own it does not matter when it comes.
  sort_from-insert_by :
      (x : A) (done ys : List A)
      → All (λ y. ¬ (key x ≡ key y)) ys
      → sort_from key (insert_by key x done) ys ≡ insert_by key x (sort_from key done ys)
  unfolding sort_from
  sort_from-insert_by x done [] h = refl
  sort_from-insert_by x done (y ∷ ys) h =
      rw (insert_by_comm y x done (λ e. h.0 (sym e)))
        (sort_from-insert_by x (insert_by key y done) ys h.1)

  All-sort_by {κ} : (P : A → Type κ) (xs : List A) → All P xs → All P (sort_by key xs)
  unfolding sort_by
  All-sort_by P xs h = go [] xs tt h
    where
      go : (done ys : List A) → All P done → All P ys → All P (sort_from key done ys)
      go done [] d e = d
      go done (y ∷ ys) d e = go (insert_by key y done) ys (All-insert_by P y done e.0 d) e.1

  In-sort_by : (a : A) (xs : List A) → In a xs → In a (sort_by key xs)
  unfolding sort_by sort_from
  In-sort_by a xs h = go [] xs (inr h)
    where
      go : (done ys : List A) → In a done ⊎ In a ys → In a (sort_from key done ys)
      go done [] (inl d) = d
      go done [] (inr e) = absurd e
      go done (y ∷ ys) (inl d) = go (insert_by key y done) ys (inl (In-insert_by_old a y done d))
      go done (y ∷ ys) (inr (inr i)) = go (insert_by key y done) ys (inr i)
      go done (y ∷ ys) (inr (inl e)) =
          go (insert_by key y done) ys
            (inl (subst (λ b. In b (insert_by key y done)) (sym e) (In-insert_by_self y done)))

  length-sort_from : (done xs : List A) → length (sort_from key done xs) ≡ length done + length xs
  unfolding sort_from
  length-sort_from done [] = omega arith
  length-sort_from done (x ∷ xs) =
      omega (arith, length-sort_from (insert_by key x done) xs, length-insert_by x done)

  length-sort_by : (xs : List A) → length (sort_by key xs) ≡ length xs
  unfolding sort_by
  length-sort_by xs = omega (arith, length-sort_from [] xs)

  pub In-of_sort_by : (a : A) (xs : List A) → In a (sort_by key xs) → In a xs
  unfolding sort_by sort_from
  In-of_sort_by a xs h = elim (go [] xs h) [ inl none_yet ↦ absurd none_yet | inr i ↦ i ]
    where
      go : (done ys : List A) → In a (sort_from key done ys) → In a done ⊎ In a ys
      go done [] i = inl i
      go done (y ∷ ys) i = elim (go (insert_by key y done) ys i) [
        | inl old ↦ elim (In-insert_by a y done old) [ inl e ↦ inr (inl e) | inr j ↦ inl j ]
        | inr j ↦ inr (inr j)
      ]

  insert_by-IsDistinct :
      (x : A) (ys : List A)
      → All (λ y. ¬ (key x ≡ key y)) ys
      → IsDistinct key ys
      → IsDistinct key (insert_by key x ys)
  unfolding insert_by
  insert_by-IsDistinct x [] f h = (tt, tt)
  insert_by-IsDistinct x (y ∷ ys) f h = elim (Bool-cases (ltb (key x) (key y))) [
    | inl before ↦ rw before (f, h)
    | inr after ↦ rw after (
      All-insert_by (λ z. ¬ (key y ≡ key z)) x ys (λ e. f.0 (sym e)) h.0,
      insert_by-IsDistinct x ys f.1 h.1,
    )
  ]

  All-apart :
      (x : A) (done xs : List A)
      → All (λ y. ¬ (key x ≡ key y)) xs
      → All (λ y. All (λ z. ¬ (key y ≡ key z)) done) xs
      → All (λ y. All (λ z. ¬ (key y ≡ key z)) (insert_by key x done)) xs
  All-apart x done [] f h = tt
  All-apart x done (y ∷ xs) f h = (
    All-insert_by (λ z. ¬ (key y ≡ key z)) x done (λ e. f.0 (sym e)) h.0,
    All-apart x done xs f.1 h.1,
  )

  All-trivial {κ} : (P : A → Type κ) → ((a : A) → P a) → (xs : List A) → All P xs
  All-trivial P f [] = tt
  All-trivial P f (x ∷ xs) = (f x, All-trivial P f xs)

  pub sort_by-IsDistinct : (xs : List A) → IsDistinct key xs → IsDistinct key (sort_by key xs)
  unfolding sort_by sort_from
  sort_by-IsDistinct xs h = go [] xs tt (All-trivial _ (λ _. tt) xs) h
    where
      go :
          (done ys : List A)
          → IsDistinct key done
          → All (λ y. All (λ z. ¬ (key y ≡ key z)) done) ys
          → IsDistinct key ys
          → IsDistinct key (sort_from key done ys)
      go done [] d f e = d
      go done (y ∷ ys) d f e =
          go (insert_by key y done) ys (insert_by-IsDistinct y done f.0 d)
            (All-apart y done ys e.0 f.1) e.1
