-- ===== src/Incidents/Active/Reassign.antt =====
-- Which incidents a bulk reassignment reaches.
use Prim.Native.String.{String}
use text.Mathlib.TextPositions.{eq_refl}
use homelabs_siem_soar.Prelude.{
  ◌≡◌, refl, ap, ◌∙◌, true, false, some, List, [], ◌∷◌, map, arith, length, filter_by, ltb,
}
use homelabs_siem_soar.Prelude.IdSet.{has, size, of_list, has-of_list}
use homelabs_siem_soar.Incidents.Active.{
  Incident, Page, assign_if, handle_bulk_reassign, reassign, toggle_select_all, all_selected,
  unassigned_count, is_unassigned, incidents, Event, searched, all_toggled, reassign_opened,
  analyst_chosen, reassign_confirmed, step, run,
}

abbrev assign_all : String → Incident → Incident
assign_all target i = record i { assignee = some target }

-- Every incident of a list whose ids are all in the set is assigned.
map-assign_if :
    (ids : List String) (target : String) (is : List Incident)
    → ((id : String) → has (map (λ i. i.id) is) id ≡ true → has ids id ≡ true)
    → map (assign_if ids target) is ≡ map (assign_all target) is
unfolding assign_if has
map-assign_if ids target [] h = refl
map-assign_if ids target (i ∷ is) h =
    let first : has ids i.id ≡ true = h i.id (ground (arith, eq_refl i.id)) in
    let rest = map-assign_if ids target is (λ id e. h id (ground arith)) in
    rw first (ap (λ t. record i { assignee = some target } ∷ t) rest)

has-pos : (ids : List String) (id : String) → has ids id ≡ true → ltb 0 (size ids) ≡ true
unfolding has
has-pos [] id h = ground arith
has-pos (x ∷ ids) id h = ground arith

unassigned-none :
    (target : String) (is : List Incident)
    → is_unassigned (some target) ≡ false
    → length (filter_by (λ i. is_unassigned i.assignee) (map (assign_all target) is)) ≡ 0
unassigned-none target [] h = refl
unassigned-none target (i ∷ is) h = rw h (unassigned-none target is h)

-- `select all` sees that not all are selected.
not_all :
    (s : Page) (i : Incident) (is : List Incident)
    → s.table.value ≡ some (i ∷ is)
    → s.selected_ids ≡ []
    → all_selected s.selected_ids s.table.value ≡ false
not_all s i is v e = rw (v, e) (ground arith)

-- What the selection is then.
abbrev every_id : Incident → List Incident → List String
every_id i is = of_list (map (λ j. j.id) (i ∷ is))

every_id-has :
    (i : Incident) (is : List Incident) (id : String)
    → has (map (λ j. j.id) (i ∷ is)) id ≡ true
    → has (every_id i is) id ≡ true
every_id-has i is id h = has-of_list (map (λ j. j.id) (i ∷ is)) id ∙ h

every_id-pos : (i : Incident) (is : List Incident) → ltb 0 (size (every_id i is)) ≡ true
unfolding has
every_id-pos i is =
    has-pos (every_id i is) i.id (every_id-has i is i.id (ground (arith, eq_refl i.id)))

-- The clicks of a reassignment, after a search and `select all`.
abbrev pub clicks : String → String → List Event
clicks query target =
    searched query ∷ all_toggled ∷ reassign_opened ∷ analyst_chosen target ∷ reassign_confirmed ∷ []

reassigned :
    (query target : String) (s : Page) (i : Incident) (is : List Incident)
    → s.table.value ≡ some (i ∷ is)
    → s.selected_ids ≡ []
    → ((run s (clicks query target)).table.value ≡ some (map (assign_all target) (i ∷ is)))
      × ((run s (clicks query target)).selected_ids ≡ [])
unfolding run step handle_bulk_reassign reassign toggle_select_all
reassigned query target s i is v e = rw (not_all s i is v e) (
    rw v (
      rw (every_id-pos i is)
        (rw (map-assign_if (every_id i is) target (i ∷ is) (every_id-has i is)) (refl, refl))))

-- With nothing selected, a search followed by `select all` and a reassignment gives every incident of
-- the page to the chosen analyst, whether the search shows it or hides it, and empties the selection;
-- no incident is counted as unassigned any more unless the choice was to unassign them.
reassign_reaches_hidden :
    (query target : String) (s : Page) (i : Incident) (is : List Incident)
    → s.table.value ≡ some (i ∷ is)
    → s.selected_ids ≡ []
    → ((run s (clicks query target)).table.value ≡ some (map (assign_all target) (i ∷ is)))
      × ((run s (clicks query target)).selected_ids ≡ [])
      × (is_unassigned (some target) ≡ false → unassigned_count (run s (clicks query target)) ≡ 0)
unfolding unassigned_count
reassign_reaches_hidden query target s i is v e =
    let (table, selected) = reassigned query target s i is v e in
    (
      table,
      selected,
      λ h.
          ap (λ o. length (filter_by (λ j. is_unassigned j.assignee) (incidents o))) table
          ∙ unassigned-none target (i ∷ is) h,
    )
