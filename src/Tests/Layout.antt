-- ===== src/Tests/Layout.antt =====
-- Concrete runs of the command palette.
use homelabs_siem_soar.Prelude.{◌≡◌, ◌<◌, some, List, [], ◌∷◌, get_elem?}
use homelabs_siem_soar.Layout.CommandPalette.{
  CommandItem, Event, start, run, shown_count, displayed_items, arrow_up, arrow_down, opened, typed,
  up_pressed,
}
use homelabs_siem_soar.Layout.CommandPalette.Range.{active_item_is_shown}

abbrev wrapped : List Event
wrapped = opened ∷ up_pressed ∷ typed "dns" ∷ []

active_item_is_shown_example :
    ((run start wrapped).active_index < shown_count (run start wrapped))
    × ((item : CommandItem) × (get_elem?
            (displayed_items (run start wrapped).query)
            (run start wrapped).active_index
          ≡ some item))
    × ((arrow_up (arrow_down (run start wrapped))).active_index ≡ (run start wrapped).active_index)
active_item_is_shown_example = active_item_is_shown wrapped
