-- ===== src/Detection/AlertRules/Guard.antt =====
-- Automatic responses are switched off only through the two-key modal.
use Prim.Native.String.{String}
use text.Mathlib.Text.{◌==◌ as str_eq}
use text.Mathlib.TextEquality.{eq_iff}
use mathlib.Core.List.{Memᴰ}
use mathlib.Core.Path.{subst}
use homelabs_siem_soar.Prelude.{
  ◌≡◌, refl, sym, ap, ◌∙◌, true, false, ◌&&◌, Option, none, some, List, [], ◌∷◌, map, arith, inl,
  inr, Bool-cases,
}
use homelabs_siem_soar.Prelude.IdSet.{IdSet, has}
use homelabs_siem_soar.Detection.AlertRules.{
  Rule, Page, rules_of, rules, map_data, flip_if, toggle_rule, set_enabled_if, is_high_impact,
  has_high_impact, handle_bulk_disable, bulk_checked, handle_bulk_enable, toggle_select,
  toggle_select_all, cancel,
}

mem_map : (f : Rule → Rule) (r : Rule) (xs : List Rule) → f r ≡ r → Memᴰ r xs → Memᴰ r (map f xs)
mem_map f r [] e m = elim m [ ]
mem_map f r (x ∷ xs) e (Memᴰ.head p) = Memᴰ.head (sym e ∙ ap f p)
mem_map f r (x ∷ xs) e (Memᴰ.tail m) = Memᴰ.tail (mem_map f r xs e m)

not_selected :
    (ids : IdSet) (xs : List Rule) (r : Rule)
    → has_high_impact ids xs ≡ false
    → Memᴰ r xs
    → is_high_impact r ≡ true
    → has ids r.id ≡ false
unfolding has_high_impact
not_selected ids [] r n m h = elim m [ ]
not_selected ids (x ∷ xs) r n (Memᴰ.head p) h = ground arith
not_selected ids (x ∷ xs) r n (Memᴰ.tail m) h = not_selected ids xs r (ground arith) m h

map_data-rules : (f : Rule → Rule) (s : Page) → rules (map_data f s) ≡ map f (rules s)
map_data-rules f s = go s.table.value
  where
    go :
        (o : Option (List Rule))
        → rules_of (elim o [ none ↦ none | some rs ↦ some (map f rs) ]) ≡ map f (rules_of o)
    go none = refl
    go (some rs) = refl

-- The clicks of the page that ask for no confirmation by themselves.
pub data Click : Type 0 where
  toggled : Rule → Click
  bulk_disabled : Click
  bulk_enabled : Click
  row_selected : String → Click
  all_rows_selected : Click
  cancelled : Click

pub click : Click → Page → Page
click (toggled rule) s = toggle_rule rule s
click bulk_disabled s = handle_bulk_disable s
click bulk_enabled s = handle_bulk_enable s
click (row_selected id) s = toggle_select id s
click all_rows_selected s = toggle_select_all s
click cancelled s = cancel s

-- A rule that is clicked is the row of its id.
abbrev IsRow : Click → Page → Type 0
IsRow (toggled rule) s = (r : Rule) → Memᴰ r (rules s) → r.id ≡ rule.id → r ≡ rule
IsRow _ s = Unit

toggle-keeps :
    (rule : Rule) (s : Page) (r : Rule)
    → IsRow (toggled rule) s
    → Memᴰ r (rules s)
    → is_high_impact r ≡ true
    → Memᴰ r (rules (toggle_rule rule s))
unfolding toggle_rule
toggle-keeps rule s r row m h = elim (Bool-cases (rule.enabled && rule.is_auto_response)) [
  | inl e ↦ rw e m
  | inr e ↦ rw e (
      subst (Memᴰ r) (sym (map_data-rules (flip_if rule.id) s))
        (mem_map (flip_if rule.id) r (rules s) (fixed e) m))
]
  where
    fixed : (rule.enabled && rule.is_auto_response) ≡ false → flip_if rule.id r ≡ r
    fixed e = elim (Bool-cases (str_eq r.id rule.id)) [
      | inl q ↦ absurd (ground (arith, row r m ((eq_iff _ _).0 q)))
      | inr q ↦ rw q
    ]

bulk-keeps :
    (s : Page) (r : Rule)
    → Memᴰ r (rules s)
    → is_high_impact r ≡ true
    → Memᴰ r (rules (handle_bulk_disable s))
unfolding handle_bulk_disable
bulk-keeps s r m h = go s.table.value refl
  where
    go : (o : Option (List Rule)) → s.table.value ≡ o → Memᴰ r (rules (bulk_checked o s))
    go none e = m
    go (some rs) e =
        let m' : Memᴰ r rs = subst (λ v. Memᴰ r (rules_of v)) e m in
        elim (Bool-cases (has_high_impact s.selected_ids rs)) [
          | inl q ↦ rw q m
          | inr q ↦ rw q (
              subst (Memᴰ r) (sym (map_data-rules (set_enabled_if s.selected_ids false) s)) (
                mem_map (set_enabled_if s.selected_ids false) r (rules s)
                  (rw (not_selected s.selected_ids rs r q m' h)) m))
        ]

enable-keeps :
    (s : Page) (r : Rule)
    → Memᴰ r (rules s)
    → is_high_impact r ≡ true
    → Memᴰ r (rules (handle_bulk_enable s))
unfolding handle_bulk_enable
enable-keeps s r m h =
    subst (Memᴰ r) (sym (map_data-rules (set_enabled_if s.selected_ids true) s))
      (mem_map (set_enabled_if s.selected_ids true) r (rules s) (ground arith) m)

-- While the modal is not confirmed, no click disables a rule that is enabled and responds by
-- itself, on its own row or in bulk: it stays in the table as it is.
pub clicks_keep_responses :
    (c : Click) (s : Page) (r : Rule)
    → IsRow c s
    → Memᴰ r (rules s)
    → is_high_impact r ≡ true
    → Memᴰ r (rules (click c s))
unfolding click toggle_select toggle_select_all cancel
clicks_keep_responses (toggled rule) s r row m h = toggle-keeps rule s r row m h
clicks_keep_responses bulk_disabled s r row m h = bulk-keeps s r m h
clicks_keep_responses bulk_enabled s r row m h = enable-keeps s r m h
clicks_keep_responses (row_selected id) s r row m h = m
clicks_keep_responses all_rows_selected s r row m h = m
clicks_keep_responses cancelled s r row m h = m
