-- ===== src/Detection/AlertRules/Bulk.antt =====
-- Selecting rules, and changing the selected ones together.
use Prim.Native.String.{String, ◌++◌ as str_append}
use homelabs_siem_soar.Prelude.{
  ◌≡◌, refl, ap, ◌∙◌, true, false, some, List, [], map, length, length-map, decimal, ==_iff,
}
use homelabs_siem_soar.Prelude.IdSet.{has, size, of_list, has-of_list, size-of_list, HasNoRepeats}
use homelabs_siem_soar.Detection.AlertRules.{
  Rule, Page, bulk_disable, perform_bulk_disable, set_enabled_if, has_high_impact,
  handle_bulk_disable, on_confirm, toggle_select_all, all_selected, rules_of, bulk_warning,
}

-- A bulk disable of rules among which one is enabled and responds by itself changes no rule and asks
-- for the number of selected rules as the text to type; once that is confirmed, and at once in every
-- other case, it disables the selected rules and no other, and empties the selection.
bulk_disable_effect :
    (s : Page) (rs : List Rule)
    → s.table.value ≡ some rs
    → (has_high_impact s.selected_ids rs ≡ true
        → ((handle_bulk_disable s).table ≡ s.table)
          × ((handle_bulk_disable s).pending_action
              ≡ some (record { action = bulk_warning (size s.selected_ids); kind = bulk_disable }))
          × ((bulk_warning (size s.selected_ids)).target
              ≡ str_append (decimal (size s.selected_ids)) " rules")
          × ((on_confirm (handle_bulk_disable s)).table.value
              ≡ some (map (set_enabled_if s.selected_ids false) rs))
          × ((on_confirm (handle_bulk_disable s)).selected_ids ≡ []))
      × (has_high_impact s.selected_ids rs ≡ false
          → ((handle_bulk_disable s).table.value
              ≡ some (map (set_enabled_if s.selected_ids false) rs))
            × ((handle_bulk_disable s).selected_ids ≡ []))
unfolding handle_bulk_disable bulk_warning on_confirm perform_bulk_disable
bulk_disable_effect s rs v =
    (λ h. rw v (rw (h) (refl, refl, refl, refl, refl)), λ h. rw v (rw h (refl, refl)))

all_selected_of_size :
    (t : Page) (rs : List Rule)
    → t.table.value ≡ some rs
    → size t.selected_ids ≡ length rs
    → all_selected t ≡ true
all_selected_of_size t rs v h = rw v ((==_iff _ _).1 h)

-- `Select all` on a table with distinct ids selects every row, and a second click selects none.
select_all_twice :
    (s : Page) (rs : List Rule)
    → s.table.value ≡ some rs
    → HasNoRepeats (map (λ r. r.id) rs)
    → all_selected s ≡ false
    → ((id : String) → has (toggle_select_all s).selected_ids id ≡ has (map (λ r. r.id) rs) id)
      × (all_selected (toggle_select_all s) ≡ true)
      × ((toggle_select_all (toggle_select_all s)).selected_ids ≡ [])
unfolding toggle_select_all
select_all_twice s rs v d n =
    let first : (toggle_select_all s).selected_ids ≡ of_list (map (λ r. r.id) rs) =
      rw n (ap (λ o. of_list (map (λ r. r.id) (rules_of o))) v) in
    let full : all_selected (toggle_select_all s) ≡ true =
      all_selected_of_size (toggle_select_all s) rs v
        (ap size first ∙ size-of_list _ d ∙ length-map (λ r. r.id) rs) in
    (λ id. ap (λ ids. has ids id) first ∙ has-of_list _ id, full, rw full)
