-- ===== src/Prelude/Window.antt =====
-- The last elements of a list, `xs.slice(-n)` for a positive n.
use Prim.Native.Nat.{ℕ, ◌-◌, ◌≤◌}
use mathlib.Core.Path.{◌≡◌, sym, ap, ◌∙◌}
use mathlib.Core.List.{List, ◌++◌}
use native.Mathlib.Omega.{arith}
use homelabs_siem_soar.Prelude.Lists.{
  drop, length, length-append, length-drop, drop-append, drop-drop,
}

module _ {ℓ} {A : Type ℓ} where
  abbrev pub window : ℕ → List A → List A
  window n xs = drop (length xs - n) xs

  -- A window on a list that grows can be moved on from the window that there was.
  pub window-append : (n : ℕ) (xs ys : List A) → window n (window n xs ++ ys) ≡ window n (xs ++ ys)
  window-append n xs ys =
      let kept : drop (length xs - n) xs ++ ys ≡ drop (length xs - n) (xs ++ ys) =
        sym (drop-append (length xs - n) xs ys (omega arith)) in
      ap (λ u. drop (length u - n) u) kept
      ∙ drop-drop _ (length xs - n) (xs ++ ys)
      ∙ ap (λ m. drop m (xs ++ ys))
          (omega (arith, length-drop (length xs - n) (xs ++ ys), length-append xs ys))

  pub length-window : (n : ℕ) (xs : List A) → length (window n xs) ≤ n
  length-window n xs = omega (arith, length-drop (length xs - n) xs)

  pub window_short : (n : ℕ) (xs : List A) → length xs ≤ n → window n xs ≡ xs
  window_short n xs h =
      ap (λ m. drop m xs) (let zero_left : length xs - n ≡ 0 = omega arith in zero_left)
