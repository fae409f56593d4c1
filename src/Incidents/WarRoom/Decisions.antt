-- ===== src/Incidents/WarRoom/Decisions.antt =====
-- The log of decisions against what was said.
use homelabs_siem_soar.Prelude.{
  ◌≡◌, ◌∙◌, refl, sym, ap, Bool, List, [], ◌∷◌, ◌++◌, filter_by, is_empty, trim, Bool-cases, inl,
  inr, if◌then◌else◌,
}
use mathlib.Core.List.{append_assoc, append-nil}
use homelabs_siem_soar.Incidents.WarRoom.{
  ChatMessage, is_decision, Page, own_message, send_message, Event, message_came, draft_typed,
  decision_toggled, form_submitted, bridge_typed, bridge_editing, broadcast_shown,
  post_mortem_shown, step, run, decisions,
}

-- What an event says: a message that came, or the draft if it is not blank.
abbrev said_by : Event → Page → List ChatMessage
said_by (message_came m) s = m ∷ []
said_by (form_submitted id now) s =
    if is_empty (trim s.draft) then [] else own_message id now s ∷ []
said_by _ s = []

abbrev pub said : Page → List Event → List ChatMessage
said s [] = []
said s (e ∷ es) = said_by e s ++ said (step e s) es

step-messages : (e : Event) (s : Page) → (step e s).messages ≡ s.messages ++ said_by e s
unfolding step send_message
step-messages (message_came m) s = refl
step-messages (draft_typed value) s = sym (append-nil s.messages)
step-messages (decision_toggled value) s = sym (append-nil s.messages)
step-messages (form_submitted id now) s = elim (Bool-cases (is_empty (trim s.draft))) [
  | inl e ↦ rw e (sym (append-nil s.messages))
  | inr e ↦ rw e refl
]
step-messages (bridge_typed value) s = sym (append-nil s.messages)
step-messages (bridge_editing value) s = sym (append-nil s.messages)
step-messages (broadcast_shown value) s = sym (append-nil s.messages)
step-messages (post_mortem_shown value) s = sym (append-nil s.messages)

run-messages : (s : Page) (es : List Event) → (run s es).messages ≡ s.messages ++ said s es
unfolding run
run-messages s [] = sym (append-nil s.messages)
run-messages s (e ∷ es) =
    run-messages (step e s) es
    ∙ ap (λ (ms : List ChatMessage). ms ++ said (step e s) es) (step-messages e s)
    ∙ append_assoc s.messages (said_by e s) (said (step e s) es)

filter-append {ℓ} :
    {A : Type ℓ} (p : A → Bool) (xs ys : List A)
    → filter_by p (xs ++ ys) ≡ filter_by p xs ++ filter_by p ys
filter-append p [] ys = refl
filter-append p (x ∷ xs) ys = elim (Bool-cases (p x)) [
  | inl e ↦ rw e (ap (λ r. x ∷ r) (filter-append p xs ys))
  | inr e ↦ rw e (filter-append p xs ys)
]

-- Whatever is said in the room, by others and in the form, stands in its order after what was there,
-- and the log of decisions grows by exactly those of its messages that are marked as decisions.
decisions_are_logged :
    (s : Page) (es : List Event)
    → ((run s es).messages ≡ s.messages ++ said s es)
      × (decisions (run s es) ≡ decisions s ++ filter_by is_decision (said s es))
unfolding decisions
decisions_are_logged s es = (
  run-messages s es,
  ap (λ (ms : List ChatMessage). filter_by is_decision ms) (run-messages s es)
      ∙ filter-append is_decision s.messages (said s es),
)
