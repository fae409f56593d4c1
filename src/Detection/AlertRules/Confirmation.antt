-- ===== src/Detection/AlertRules/Confirmation.antt =====
-- The two-key modal of AlertRulesPage.tsx (lines 240 to 253). Its `onConfirm` starts a toggle or a
-- bulk action and returns no promise.
use Prim.Native.String.{String}
use text.Mathlib.Text.{◌==◌ as str_eq}
use text.Mathlib.TextEquality.{eq_iff}
use homelabs_siem_soar.Prelude.{
  ◌≡◌, ◌≢◌, refl, ap, ◌∙◌, Bool, true, false, not, Option, none, some, List, [], ◌∷◌, ◌++◌, map,
  trim, inl, inr, Bool-cases, eq-false_of_ne,
}
use homelabs_siem_soar.Investigations.Types.{ActionInfo}
use homelabs_siem_soar.Shared.TwoKeyModal.{
  Dialog, is_match, is_shown, handle_confirm, handle_cancel,
}
use homelabs_siem_soar.Detection.AlertRules.{
  Rule, Page, Pending, toggle_of, flip_if, perform_toggle, confirm_kind, on_confirm, cancel,
}

-- `pendingAction?.action || null`, and `pendingAction !== null`.
abbrev action_of : Option Pending → Option ActionInfo
action_of none = none
action_of (some p) = some p.action

abbrev pub is_pending : Option Pending → Bool
is_pending none = false
is_pending (some p) = true

-- A click on the button of the modal.
confirm_clicked : Dialog Page → Dialog Page
confirm_clicked d =
    handle_confirm false on_confirm (is_pending d.page.pending_action)
      (action_of d.page.pending_action) d.page.two_key_input d

unfoldable cancel_clicked : Bool → Dialog Page → Dialog Page
cancel_clicked by_button d =
    handle_cancel cancel by_button (is_pending d.page.pending_action)
      (action_of d.page.pending_action) d

not-not : (b : Bool) → not (not b) ≡ b
not-not true = refl
not-not false = refl

flip_if-twice : (id : String) (r : Rule) → flip_if id (flip_if id r) ≡ r
unfolding flip_if
flip_if-twice id r = elim (Bool-cases (str_eq r.id id)) [
  | inl e ↦ rw e (rw e (ap (λ b. record r { enabled = b }) (not-not r.enabled)))
  | inr e ↦ rw e (rw e refl)
]

map-flip_if-twice : (id : String) (rs : List Rule) → map (flip_if id) (map (flip_if id) rs) ≡ rs
map-flip_if-twice id [] = refl
map-flip_if-twice id (r ∷ rs) =
    ap (◌∷◌ (flip_if id (flip_if id r))) (map-flip_if-twice id rs)
    ∙ ap (λ x. x ∷ rs) (flip_if-twice id r)

-- A high-impact rule waits in the modal for its confirmation. With a text that differs from the name
-- of the rule, blanks at the ends aside, a click on the button changes nothing. With the name, one
-- click shows the rule flipped and sends one request. The modal stays open until the reply, and a
-- second click before it sends a second request and shows the table as it was before the first one.
second_confirm_undoes_first :
    (rule : Rule) (d : Dialog Page) (rs : List Rule) (asked : ActionInfo)
    → d.page.table.value ≡ some rs
    → d.page.pending_action ≡ some (record { action = asked; kind = toggle_of rule })
    → d.is_submitting ≡ false
    → (trim d.page.two_key_input ≢ asked.target → confirm_clicked d ≡ d)
      × (trim d.page.two_key_input ≡ asked.target
          → let once = confirm_clicked d in
            let twice = confirm_clicked once in
            (once.page.table.value ≡ some (map (flip_if rule.id) rs))
            × (once.page.toggles ≡ d.page.toggles ++ rs ∷ [])
            × (once.page.pending_action ≡ d.page.pending_action)
            × (twice.page.table.value ≡ some rs)
            × (twice.page.toggles ≡ (d.page.toggles ++ rs ∷ []) ++ map (flip_if rule.id) rs ∷ []))
unfolding confirm_clicked handle_confirm is_match is_shown on_confirm confirm_kind perform_toggle
second_confirm_undoes_first rule d rs asked v q n = (
  (λ ne. rw (q, eq-false_of_ne _ _ ne) refl),
  (λ e.
      let m = (eq_iff _ _).1 e in
      rw (v, q, n, m)
        (refl, refl, q, rw (q, m) (ap some (map-flip_if-twice rule.id rs)), rw (q, m) refl)),
)
