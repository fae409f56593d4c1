-- ===== src/Detection/AlertRules/Rollback.antt =====
-- Toggles whose requests end well or badly, alone and overlapping.
use homelabs_siem_soar.Prelude.{◌≡◌, refl, true, false, none, some, List, [], ◌∷◌, map}
use homelabs_siem_soar.Detection.AlertRules.{
  Rule, toggle_failed, Page, flip_if, perform_toggle, toggle_settled,
}

-- A toggle that is alone shows its rule flipped at once. If its request succeeds, that stays and the
-- modal is closed; if it fails, the table is as it was before and the page says so.
toggle_alone :
    (rule : Rule) (s : Page) (rs : List Rule)
    → s.table.value ≡ some rs
    → s.toggles ≡ []
    → let t = perform_toggle rule s in
      (t.table.value ≡ some (map (flip_if rule.id) rs))
      × ((toggle_settled 0 true t).table ≡ t.table)
      × ((toggle_settled 0 true t).pending_action ≡ none)
      × ((toggle_settled 0 false t).table ≡ s.table)
      × ((toggle_settled 0 false t).notices ≡ toggle_failed ∷ s.notices)
unfolding perform_toggle toggle_settled
toggle_alone rule s rs v n = rw (v, n) (refl, refl, refl, refl, refl)

-- Two toggles overlap: the second one succeeds, and then the first one fails. The failure puts the
-- whole table back to what it was before the first click, so the second rule is shown as it was
-- although the server has changed it.
pub failed_toggle_undoes_other :
    (a b : Rule) (s : Page) (rs : List Rule)
    → s.table.value ≡ some rs
    → s.toggles ≡ []
    → let both = perform_toggle b (perform_toggle a s) in
      ((toggle_settled 1 true both).table.value ≡ some (map (flip_if b.id) (map (flip_if a.id) rs)))
      × ((toggle_settled 0 false (toggle_settled 1 true both)).table.value ≡ some rs)
      × ((toggle_settled 0 false (toggle_settled 1 true both)).toggles ≡ [])
unfolding perform_toggle toggle_settled
failed_toggle_undoes_other a b s rs v n = rw (v, n) (refl, refl, refl)
