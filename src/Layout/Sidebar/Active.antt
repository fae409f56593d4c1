-- ===== src/Layout/Sidebar/Active.antt =====
-- Which item of the sidebar is marked.
use Prim.Native.String.{String, [], ◌∷◌}
use text.Mathlib.Text.{◌==◌ as str_eq}
use text.Mathlib.TextEquality.{eq_iff}
use mathlib.Core.List.{List}
use homelabs_siem_soar.Prelude.{
  ℕ, ◌≡◌, ◌⊎◌, inl, inr, refl, sym, ◌∙◌, zero, suc, Bool, true, not, ◌||◌, arith, is_prefix, all,
  Bool-cases, some, get_elem?,
}
use homelabs_siem_soar.Layout.Sidebar.{nav_paths, is_active}

-- Of two beginnings of a text one begins the other.
is_prefix-linear :
    (p q t : String)
    → is_prefix p t ≡ true
    → is_prefix q t ≡ true
    → (is_prefix p q ≡ true) ⊎ (is_prefix q p ≡ true)
unfolding is_prefix
is_prefix-linear [] q t h k = inl refl
is_prefix-linear (c ∷ p) [] t h k = inr refl
is_prefix-linear (c ∷ p) (d ∷ q) [] h k = cc
is_prefix-linear (c ∷ p) (d ∷ q) (e ∷ t) h k =
    elim (is_prefix-linear p q t (ground arith) (ground arith)) [
      | inl m ↦ inl (ground arith)
      | inr m ↦ inr (ground arith)
    ]

is_prefix_refl : (p : String) → is_prefix p p ≡ true
unfolding is_prefix
is_prefix_refl [] = refl
is_prefix_refl (c ∷ p) = ground (arith, is_prefix_refl p)

active-is_prefix : (t p : String) → is_active t p ≡ true → is_prefix p t ≡ true
unfolding is_active
active-is_prefix t p h = elim (Bool-cases (str_eq t p)) [
  | inl same ↦ rw ((eq_iff t p).0 same) (is_prefix_refl p)
  | inr other ↦ ground (arith)
]

active-root : (t : String) → is_active t "/" ≡ true → t ≡ "/"
unfolding is_active
active-root t h = (eq_iff t "/").0 (ground (arith, eq_iff t "/"))

all-get {ℓ} :
    {A : Type ℓ} (f : A → Bool) (xs : List A) (i : ℕ) (x : A)
    → all f xs ≡ true
    → get_elem? xs i ≡ some x
    → f x ≡ true
all-get f List.[] i x h g = cc
all-get f (List.◌∷◌ y ys) zero x h g = let e : y ≡ x = cc in rw (← e) (ground arith)
all-get f (List.◌∷◌ y ys) (suc i) x h g = all-get f ys i x (ground arith) g

-- Only the root begins another item's path.
abbrev is_apart : String → String → Bool
is_apart p q = str_eq p q || str_eq p "/" || str_eq q "/" || not (is_prefix p q)

all_apart : all (λ p. all (is_apart p) nav_paths) nav_paths ≡ true
unfolding is_prefix
all_apart = refl

root_alone : all (λ q. str_eq q "/" || not (is_active "/" q)) nav_paths ≡ true
unfolding is_active is_prefix
root_alone = refl

-- Wherever the browser is, at most one item of the sidebar is marked: two marked items have one path.
at_most_one_active :
    (pathname : String) (i j : ℕ) (p q : String)
    → get_elem? nav_paths i ≡ some p
    → get_elem? nav_paths j ≡ some q
    → is_active pathname p ≡ true
    → is_active pathname q ≡ true
    → p ≡ q
at_most_one_active t i j p q gi gj hp hq = elim (Bool-cases (str_eq p "/")) [
  | inl root ↦ at_root p q j gj ((eq_iff p "/").0 root) hp hq
  | inr other ↦ elim (Bool-cases (str_eq q "/")) [
    | inl root ↦ sym (at_root q p i gi ((eq_iff q "/").0 root) hq hp)
    | inr deep ↦ elim (is_prefix-linear p q t (active-is_prefix t p hp) (active-is_prefix t q hq)) [
      | inl m ↦ (eq_iff p q).0 (ground (arith, apart p q i j gi gj))
      | inr m ↦ sym ((eq_iff q p).0 (ground (arith, apart q p j i gj gi)))
    ]
  ]
]
  where
    at_root :
        (p q : String) (j : ℕ)
        → get_elem? nav_paths j ≡ some q
        → p ≡ "/"
        → is_active t p ≡ true
        → is_active t q ≡ true
        → p ≡ q
    at_root p q j g e a b =
        let here : t ≡ "/" = active-root t (rw (← e) a) in
        let alone =
          all-get (λ x. str_eq x "/" || not (is_active "/" x)) nav_paths j q root_alone g in
        let marked : is_active "/" q ≡ true = rw here at b in
        e ∙ sym ((eq_iff q "/").0 (ground (arith, alone, marked)))

    apart :
        (p q : String) (i j : ℕ)
        → get_elem? nav_paths i ≡ some p
        → get_elem? nav_paths j ≡ some q
        → is_apart p q ≡ true
    apart p q i j gi gj =
        all-get (is_apart p) nav_paths j q
          (all-get (λ x. all (is_apart x) nav_paths) nav_paths i p all_apart gi) gj
