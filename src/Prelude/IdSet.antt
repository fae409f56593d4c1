-- ===== src/Prelude/IdSet.antt =====
-- JavaScript's `Set<string>` in insertion order: `has`, `add`, `delete`, `size`, `new Set(ids)`.
use Prim.Native.Nat.{ℕ, ◌+◌}
use Prim.Native.String.{String}
use mathlib.Core.Path.{◌≡◌, refl, ap}
use mathlib.Core.Logic.{inl, inr}
use mathlib.Core.Bool.{Bool, false, not, ◌||◌}
use mathlib.Core.List.{List, [], ◌∷◌, ◌++◌}
use native.Mathlib.Omega.{arith}
use text.Mathlib.Text.{◌==◌}
use text.Mathlib.TextEquality.{eq_iff}
use homelabs_siem_soar.Prelude.Tests.{if◌then◌else◌, Bool-cases}
use homelabs_siem_soar.Prelude.Lists.{length, length-append}

abbrev pub IdSet : Type 0
IdSet = List String

unfoldable pub has : IdSet → String → Bool
has [] id = false
has (x ∷ xs) id = x == id || has xs id

abbrev pub size : IdSet → ℕ
size = length

unfoldable pub add : IdSet → String → IdSet
unfolding has
add ids id = if has ids id then ids else ids ++ id ∷ []

unfoldable pub delete : IdSet → String → IdSet
delete [] id = []
delete (x ∷ xs) id = if x == id then delete xs id else x ∷ delete xs id

add_all : IdSet → List String → IdSet
unfolding add
add_all ids [] = ids
add_all ids (x ∷ xs) = add_all (add ids x) xs

unfoldable pub of_list : List String → IdSet
unfolding add_all
of_list ids = add_all [] ids

-- `toggleSelect` of the pages: a copy of the set with one id added or deleted.
unfoldable pub toggle : IdSet → String → IdSet
toggle ids id = if has ids id then delete ids id else add ids id

pub has-append : (xs ys : IdSet) (id : String) → has (xs ++ ys) id ≡ (has xs id || has ys id)
unfolding has
has-append [] ys id = refl
has-append (x ∷ xs) ys id = ground (arith, has-append xs ys id)

pub has-add : (ids : IdSet) (a id : String) → has (add ids a) id ≡ (has ids id || a == id)
unfolding add has
has-add ids a id = elim (Bool-cases (has ids a)) [
  | inl old ↦ elim (Bool-cases (a == id)) [
    | inl same ↦ rw (old, same) (rw (← (eq_iff a id).0 same, old))
    | inr other ↦ rw (old, other) (ground arith)
  ]
  | inr new ↦ rw new (ground (arith, has-append ids (a ∷ []) id))
]

pub has-delete :
    (ids : IdSet) (a id : String) → has (delete ids a) id ≡ (if a == id then false else has ids id)
unfolding delete has
has-delete [] a id = ground arith
has-delete (x ∷ xs) a id = ground (arith, eq_iff x a, eq_iff a id, eq_iff x id, has-delete xs a id)

-- Toggling an id flips its membership and leaves every other id as it was.
pub has-toggle :
    (ids : IdSet) (a id : String)
    → has (toggle ids a) id ≡ (if a == id then not (has ids id) else has ids id)
unfolding toggle
has-toggle ids a id = ground (arith, has-delete ids a id, has-add ids a id, eq_iff a id)

has-add_all :
    (ids : IdSet) (xs : List String) (id : String)
    → has (add_all ids xs) id ≡ (has ids id || has xs id)
unfolding add_all has
has-add_all ids [] id = ground arith
has-add_all ids (x ∷ xs) id = ground (arith, has-add_all (add ids x) xs id, has-add ids x id)

pub has-of_list : (xs : List String) (id : String) → has (of_list xs) id ≡ has xs id
unfolding of_list has
has-of_list xs id = has-add_all [] xs id

-- No id stands twice.
abbrev pub HasNoRepeats : List String → Type 0
HasNoRepeats [] = Unit
HasNoRepeats (x ∷ xs) = (has xs x ≡ false) × HasNoRepeats xs

HasNoRepeats-push :
    (ids : IdSet) (a : String) → HasNoRepeats ids → has ids a ≡ false → HasNoRepeats (ids ++ a ∷ [])
unfolding has
HasNoRepeats-push [] a d n = (refl, tt)
HasNoRepeats-push (x ∷ xs) a d n = (
  ground (arith, d.0, has-append xs (a ∷ []) x, eq_iff x a, eq_iff a x),
  HasNoRepeats-push xs a d.1 (ground arith),
)

pub HasNoRepeats-add : (ids : IdSet) (a : String) → HasNoRepeats ids → HasNoRepeats (add ids a)
unfolding add
HasNoRepeats-add ids a d = elim (Bool-cases (has ids a)) [
  | inl old ↦ rw old d
  | inr new ↦ rw new (HasNoRepeats-push ids a d new)
]

-- None of the ids is in the set.
abbrev AreNew : IdSet → List String → Type 0
AreNew ids [] = Unit
AreNew ids (x ∷ xs) = (has ids x ≡ false) × AreNew ids xs

AreNew-add :
    (ids : IdSet) (a : String) (xs : List String)
    → has xs a ≡ false
    → AreNew ids xs
    → AreNew (add ids a) xs
unfolding has
AreNew-add ids a [] h n = tt
AreNew-add ids a (x ∷ xs) h n = (
  ground (arith, has-add ids a x, eq_iff a x, eq_iff x a),
  AreNew-add ids a xs (ground arith) n.1,
)

size-add_all :
    (ids : IdSet) (xs : List String)
    → AreNew ids xs
    → HasNoRepeats xs
    → size (add_all ids xs) ≡ size ids + length xs
unfolding add_all add
size-add_all ids [] n d = omega arith
size-add_all ids (x ∷ xs) n d =
    let added : add ids x ≡ ids ++ x ∷ [] = rw n.0 in
    let rest = size-add_all (add ids x) xs (AreNew-add ids x xs d.0 n.1) d.1 in
    omega (arith, rest, ap length added, length-append ids (x ∷ []))

AreNew-nil : (xs : List String) → AreNew [] xs
unfolding has
AreNew-nil [] = tt
AreNew-nil (x ∷ xs) = (refl, AreNew-nil xs)

pub size-of_list : (xs : List String) → HasNoRepeats xs → size (of_list xs) ≡ length xs
unfolding of_list
size-of_list xs d = omega (arith, size-add_all [] xs (AreNew-nil xs) d)
