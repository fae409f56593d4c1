-- ===== src/Assets/Inventory/Assign.antt =====
-- Assigning owners, and the count of unmanaged assets.
use Prim.Native.Nat.{◌%◌}
use Prim.Native.String.{String}
use homelabs_siem_soar.Prelude.{
  ℕ, zero, suc, ◌+◌, ◌≡◌, refl, ap, ◌∙◌, Bool, true, false, ◌&&◌, ◌==◌, Option, none, some, List,
  [], ◌∷◌, map, map_from, arith, length, filter_by, get_elem?, trim, is_empty, or_default,
  if◌then◌else◌, inl, inr, Bool-cases,
}
use homelabs_siem_soar.Prelude.IdSet.{IdSet, has}
use homelabs_siem_soar.Assets.Inventory.{
  Asset, RawAsset, Page, enhance, loaded, assets_of, unmanaged_count, assign_if, handle_bulk_assign,
}

unmanaged_count-assign :
    (ids : IdSet) (owner : String) (xs : List Asset)
    → length (filter_by (λ a. a.is_unmanaged) (map (assign_if ids owner) xs))
        + length (filter_by (λ a. has ids a.id && a.is_unmanaged) xs)
      ≡ length (filter_by (λ a. a.is_unmanaged) xs)
unfolding assign_if
unmanaged_count-assign ids owner [] = omega arith
unmanaged_count-assign ids owner (a ∷ xs) = elim (Bool-cases (has ids a.id)) [
  | inl e ↦ rw e (ground (arith, unmanaged_count-assign ids owner xs))
  | inr e ↦ rw e (ground (arith, unmanaged_count-assign ids owner xs))
]

-- A bulk assignment with an owner that is not blank takes exactly the selected unmanaged assets off
-- the count of unmanaged ones, gives each selected asset the owner and leaves every other asset as it
-- was, and empties the selection; with a blank owner nothing changes.
bulk_assign_counts :
    (s : Page) (xs : List Asset)
    → s.table.value ≡ some xs
    → (is_empty (trim s.owner_input) ≡ true → handle_bulk_assign s ≡ s)
      × (is_empty (trim s.owner_input) ≡ false
          → ((handle_bulk_assign s).table.value
              ≡ some (map (assign_if s.selected_ids s.owner_input) xs))
            × (unmanaged_count (assets_of (handle_bulk_assign s).table.value)
                  + length (filter_by (λ a. has s.selected_ids a.id && a.is_unmanaged) xs)
                ≡ unmanaged_count xs)
            × ((handle_bulk_assign s).selected_ids ≡ [])
            × ((a : Asset)
                → (has s.selected_ids a.id ≡ true
                    → (assign_if s.selected_ids s.owner_input a).owner ≡ s.owner_input)
                  × (has s.selected_ids a.id ≡ false
                      → assign_if s.selected_ids s.owner_input a ≡ a)))
unfolding handle_bulk_assign unmanaged_count assign_if assets_of
bulk_assign_counts s xs v = (
  λ b. rw b refl,
  λ b. (
    rw b (rw v refl),
    rw b (rw v (unmanaged_count-assign s.selected_ids s.owner_input xs)),
    rw b refl,
    λ a. (λ h. rw h refl, λ h. rw h refl),
  ),
)

enhance_found : ℕ → Option RawAsset → Option Asset
enhance_found n none = none
enhance_found n (some a) = some (enhance n a)

or_default-full : (s d : String) → is_empty d ≡ false → is_empty (or_default s d) ≡ false
or_default-full String.[] d h = h
or_default-full (String.◌∷◌ c s) d h = refl

blank_or_full :
    (b : Bool) (t d : String) → is_empty d ≡ false → is_empty (if b then "" else or_default t d) ≡ b
blank_or_full true t d h = refl
blank_or_full false t d h = or_default-full t d h

get-map_from :
    (n i : ℕ) (xs : List RawAsset) (a : RawAsset)
    → get_elem? xs i ≡ some a
    → get_elem? (map_from n enhance xs) i ≡ some (enhance (n + i) a)
unfolding enhance_found
get-map_from n i [] a e = ground arith
get-map_from n zero (x ∷ xs) a e =
    let place : n ≡ n + 0 = omega arith in
    ap (λ m. some (enhance m x)) place ∙ ap (enhance_found (n + 0)) e
get-map_from n (suc i) (x ∷ xs) a e =
    let place : suc n + i ≡ n + suc i = omega arith in
    get-map_from (suc n) i xs a e ∙ ap (λ m. some (enhance m a)) place

zero_place : (i : ℕ) → 0 + i ≡ i
zero_place i = omega arith

-- Every load shows the asset at a place of the reply that is a multiple of four as unmanaged, without
-- an owner and without a criticality, whatever the reply says of it, and no other asset as unmanaged
-- or without an owner.
every_fourth_is_unmanaged :
    (xs : List RawAsset) (i : ℕ) (a : RawAsset)
    → get_elem? xs i ≡ some a
    → (get_elem? (loaded xs) i ≡ some (enhance i a))
      × ((enhance i a).is_unmanaged ≡ (i % 4 == 0))
      × (is_empty (enhance i a).owner ≡ (i % 4 == 0))
      × (is_empty (enhance i a).criticality ≡ (i % 4 == 0))
unfolding loaded enhance
every_fourth_is_unmanaged xs i a e = (
  get-map_from 0 i xs a e ∙ ap (λ m. some (enhance m a)) (zero_place i),
  refl,
  blank_or_full (i % 4 == 0) a.owner "Alice" refl,
  blank_or_full (i % 4 == 0) a.criticality "Tier 3" refl,
)
