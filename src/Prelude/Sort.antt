-- ===== src/Prelude/Sort.antt =====
-- `.sort((a, b) => key(b) - key(a))`: JavaScript's sort is stable, so it is an insertion sort that
-- puts an element in front of its equals.
use Prim.Native.Nat.{ℕ, ◌+◌, ◌≤◌}
use mathlib.Core.Path.{◌≡◌, refl, ap, ◌∙◌}
use mathlib.Core.Logic.{inl, inr}
use mathlib.Core.Bool.{Bool, ◌||◌}
use mathlib.Core.List.{List, [], ◌∷◌}
use native.Mathlib.Omega.{arith}
use homelabs_siem_soar.Prelude.Tests.{leb, ◌==◌, if◌then◌else◌, Bool-cases}
use homelabs_siem_soar.Prelude.Lists.{All, any, filter_by, sum_by}

module _ {ℓ} {A : Type ℓ} (key : A → ℕ) where
  unfoldable pub insert_desc : A → List A → List A
  insert_desc a [] = a ∷ []
  insert_desc a (b ∷ bs) = if leb (key b) (key a) then a ∷ b ∷ bs else b ∷ insert_desc a bs

  unfoldable pub sort_desc : List A → List A
  unfolding insert_desc
  sort_desc [] = []
  sort_desc (a ∷ xs) = insert_desc a (sort_desc xs)

  -- No element is followed by one with a greater key.
  abbrev pub IsDescending : List A → Type 0
  IsDescending [] = Unit
  IsDescending (a ∷ xs) = All (λ b. key b ≤ key a) xs × IsDescending xs

  -- The elements of one key, in order.
  abbrev pub of_key : ℕ → List A → List A
  of_key k = filter_by (λ a. key a == k)

  pub All-insert :
      (P : A → Type 0) (a : A) (xs : List A) → P a → All P xs → All P (insert_desc a xs)
  unfolding insert_desc
  All-insert P a [] p h = (p, tt)
  All-insert P a (b ∷ bs) p h = elim (Bool-cases (leb (key b) (key a))) [
    | inl e ↦ rw e (p, h)
    | inr e ↦ rw e (h.0, All-insert P a bs p h.1)
  ]

  sum_by-insert :
      (f : A → ℕ) (a : A) (xs : List A) → sum_by f (insert_desc a xs) ≡ f a + sum_by f xs
  unfolding insert_desc
  sum_by-insert f a [] = refl
  sum_by-insert f a (b ∷ bs) = ground (arith, sum_by-insert f a bs)

  pub sum_by-sort : (f : A → ℕ) (xs : List A) → sum_by f (sort_desc xs) ≡ sum_by f xs
  unfolding sort_desc
  sum_by-sort f [] = refl
  sum_by-sort f (a ∷ xs) = omega (arith, sum_by-insert f a (sort_desc xs), sum_by-sort f xs)

  pub All-sort : (P : A → Type 0) (xs : List A) → All P xs → All P (sort_desc xs)
  unfolding sort_desc
  All-sort P [] h = h
  All-sort P (a ∷ xs) h = All-insert P a (sort_desc xs) h.0 (All-sort P xs h.1)

  All-weaken :
      (a b : A) (xs : List A)
      → key a ≤ key b
      → All (λ c. key c ≤ key a) xs
      → All (λ c. key c ≤ key b) xs
  All-weaken a b [] h q = tt
  All-weaken a b (c ∷ xs) h q = (omega arith, All-weaken a b xs h q.1)

  insert-IsDescending : (a : A) (xs : List A) → IsDescending xs → IsDescending (insert_desc a xs)
  unfolding insert_desc
  insert-IsDescending a [] h = (tt, tt)
  insert-IsDescending a (b ∷ bs) h = elim (Bool-cases (leb (key b) (key a))) [
    | inl e ↦ rw e ((ground arith, All-weaken b a bs (ground arith) h.0), h)
    | inr e ↦
        rw e (All-insert (λ c. key c ≤ key b) a bs (ground arith) h.0, insert-IsDescending a bs h.1)
  ]

  pub sort-IsDescending : (xs : List A) → IsDescending (sort_desc xs)
  unfolding sort_desc
  sort-IsDescending [] = tt
  sort-IsDescending (a ∷ xs) = insert-IsDescending a (sort_desc xs) (sort-IsDescending xs)

  insert-of_key : (k : ℕ) (a : A) (xs : List A) → of_key k (insert_desc a xs) ≡ of_key k (a ∷ xs)
  unfolding insert_desc
  insert-of_key k a [] = refl
  insert-of_key k a (b ∷ bs) = elim (Bool-cases (leb (key b) (key a))) [
    | inl e ↦ rw e
    | inr e ↦ rw e (ground (arith, insert-of_key k a bs))
  ]

  -- Sorting keeps the elements of each key, in their order: it loses, adds and swaps none of them.
  pub sort-of_key : (k : ℕ) (xs : List A) → of_key k (sort_desc xs) ≡ of_key k xs
  unfolding sort_desc
  sort-of_key k [] = refl
  sort-of_key k (a ∷ xs) = insert-of_key k a (sort_desc xs) ∙ ground (arith, sort-of_key k xs)

  pub insert-any :
      (p : A → Bool) (a : A) (xs : List A) → any p (insert_desc a xs) ≡ (p a || any p xs)
  unfolding insert_desc
  insert-any p a [] = refl
  insert-any p a (b ∷ bs) = elim (Bool-cases (leb (key b) (key a))) [
    | inl e ↦ rw e
    | inr e ↦ rw e (ground (arith, insert-any p a bs))
  ]

  pub sort-any : (p : A → Bool) (xs : List A) → any p (sort_desc xs) ≡ any p xs
  unfolding sort_desc
  sort-any p [] = refl
  sort-any p (a ∷ xs) = insert-any p a (sort_desc xs) ∙ ap (λ b. p a || b) (sort-any p xs)
