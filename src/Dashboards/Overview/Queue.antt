-- ===== src/Dashboards/Overview/Queue.antt =====
-- The queue of alerts: its ids, and the alerts that are dismissed.
use Prim.Native.String.{String}
use text.Mathlib.Text.{◌==◌ as str_eq}
use homelabs_siem_soar.Prelude.{
  ℕ, zero, suc, ◌≡◌, refl, ◌∙◌, Bool, true, false, not, Option, none, some, List, [], ◌∷◌, All,
  arith, map, filter_by, get_elem?, is_empty, Bool-cases, inl, inr,
}
use homelabs_siem_soar.Dashboards.Overview.{
  AlertItem, NewAlert, Page, Event, queue_chosen, load_ended, alert_came, agent_came,
  escalate_pressed, escalate_replied, dismiss_pressed, dismiss_replied, handoff_pressed,
  handoff_replied, is_listed, escalate_if, parse_new, on_alert, found_id, new_alert, on_agent,
  escalate_settled, escalate_ended, dismiss_settled, dismiss_ended, handoff_clicked, handoff_ended,
  step, run,
}

abbrev pub HasDistinctIds : List AlertItem → Type 0
HasDistinctIds [] = Unit
HasDistinctIds (a ∷ alerts) = (is_listed a.id alerts ≡ false) × HasDistinctIds alerts

is_listed-remove :
    (id : String) (alerts : List AlertItem)
    → is_listed id (filter_by (λ a. not (str_eq a.id id)) alerts) ≡ false
is_listed-remove id [] = refl
is_listed-remove id (a ∷ alerts) = ground (arith, is_listed-remove id alerts)

is_listed-filter :
    (id : String) (p : AlertItem → Bool) (alerts : List AlertItem)
    → is_listed id alerts ≡ false
    → is_listed id (filter_by p alerts) ≡ false
is_listed-filter id p [] h = refl
is_listed-filter id p (a ∷ alerts) h = ground (arith, is_listed-filter id p alerts)

filter-HasDistinctIds :
    (p : AlertItem → Bool) (alerts : List AlertItem)
    → HasDistinctIds alerts
    → HasDistinctIds (filter_by p alerts)
filter-HasDistinctIds p [] h = tt
filter-HasDistinctIds p (a ∷ alerts) h = elim (Bool-cases (p a)) [
  | inl e ↦ rw e (is_listed-filter a.id p alerts h.0, filter-HasDistinctIds p alerts h.1)
  | inr e ↦ rw e (filter-HasDistinctIds p alerts h.1)
]

escalate_if-id : (id : String) (a : AlertItem) → (escalate_if id a).id ≡ a.id
unfolding escalate_if
escalate_if-id id a = ground arith

is_listed-escalate :
    (id k : String) (alerts : List AlertItem)
    → is_listed id (map (escalate_if k) alerts) ≡ is_listed id alerts
is_listed-escalate id k [] = refl
is_listed-escalate id k (a ∷ alerts) = rw (escalate_if-id k a, is_listed-escalate id k alerts) refl

escalate-HasDistinctIds :
    (k : String) (alerts : List AlertItem)
    → HasDistinctIds alerts
    → HasDistinctIds (map (escalate_if k) alerts)
escalate-HasDistinctIds k [] h = tt
escalate-HasDistinctIds k (a ∷ alerts) h = (
  rw (escalate_if-id k a) (is_listed-escalate a.id k alerts ∙ h.0),
  escalate-HasDistinctIds k alerts h.1,
)

-- An alert is dismissed when its request ends, whether the server took it or not: the two outcomes
-- leave the same page, on which the alert is listed no more.
dismissed_is_gone :
    (s : Page) (i : ℕ) (id : String) (succeeded : Bool)
    → get_elem? s.dismissals i ≡ some id
    → (is_listed id (step (dismiss_replied i succeeded) s).alerts ≡ false)
      × (step (dismiss_replied i true) s ≡ step (dismiss_replied i false) s)
unfolding step dismiss_settled dismiss_ended
dismissed_is_gone s i id true h = rw h (is_listed-remove id s.alerts, refl)
dismissed_is_gone s i id false h = rw h (is_listed-remove id s.alerts, refl)

-- An event other than the end of a load, which replaces the queue.
abbrev IsNoLoad : Event → Type 0
IsNoLoad (load_ended random reply) = ⊥
IsNoLoad _ = Unit {0}

alert-HasDistinctIds :
    (o : Option String) (now : String) (a : NewAlert) (s : Page)
    → HasDistinctIds s.alerts
    → HasDistinctIds (found_id o now a s).alerts
unfolding found_id new_alert parse_new
alert-HasDistinctIds none now a s h = h
alert-HasDistinctIds (some id) now a s h = elim (Bool-cases (is_empty id)) [
  | inl e ↦ rw e h
  | inr e ↦ elim (Bool-cases (is_listed id s.alerts)) [
    | inl m ↦ rw (e, m) h
    | inr m ↦ rw (e, m) (m, h)
  ]
]

escalate_ended-HasDistinctIds :
    (o : Option String) (i : ℕ) (b : Bool) (s : Page)
    → HasDistinctIds s.alerts
    → HasDistinctIds (escalate_ended o i b s).alerts
unfolding escalate_ended
escalate_ended-HasDistinctIds none i b s h = h
escalate_ended-HasDistinctIds (some id) i true s h = escalate-HasDistinctIds id s.alerts h
escalate_ended-HasDistinctIds (some id) i false s h = h

dismiss_ended-HasDistinctIds :
    (o : Option String) (i : ℕ) (b : Bool) (s : Page)
    → HasDistinctIds s.alerts
    → HasDistinctIds (dismiss_ended o i b s).alerts
unfolding dismiss_ended
dismiss_ended-HasDistinctIds none i b s h = h
dismiss_ended-HasDistinctIds (some id) i true s h =
    filter-HasDistinctIds (λ a. not (str_eq a.id id)) s.alerts h
dismiss_ended-HasDistinctIds (some id) i false s h =
    filter-HasDistinctIds (λ a. not (str_eq a.id id)) s.alerts h

handoff-alerts : (n : ℕ) (b : Bool) (s : Page) → (handoff_ended n b s).alerts ≡ s.alerts
unfolding handoff_ended
handoff-alerts zero b s = refl
handoff-alerts (suc n) b s = refl

clicked-alerts : (s : Page) → (handoff_clicked s).alerts ≡ s.alerts
unfolding handoff_clicked
clicked-alerts s = ground arith

step-HasDistinctIds :
    (e : Event) (s : Page) → IsNoLoad e → HasDistinctIds s.alerts → HasDistinctIds (step e s).alerts
unfolding step on_alert on_agent escalate_settled dismiss_settled
step-HasDistinctIds (queue_chosen mine) s v h = h
step-HasDistinctIds (load_ended random reply) s v h = absurd v
step-HasDistinctIds (alert_came now a) s v h = alert-HasDistinctIds a.id now a s h
step-HasDistinctIds (agent_came now m) s v h = h
step-HasDistinctIds (escalate_pressed id) s v h = h
step-HasDistinctIds (escalate_replied i b) s v h =
    escalate_ended-HasDistinctIds (get_elem? s.escalations i) i b s h
step-HasDistinctIds (dismiss_pressed id) s v h = h
step-HasDistinctIds (dismiss_replied i b) s v h =
    dismiss_ended-HasDistinctIds (get_elem? s.dismissals i) i b s h
step-HasDistinctIds handoff_pressed s v h = rw (clicked-alerts s) h
step-HasDistinctIds (handoff_replied b) s v h = rw (handoff-alerts s.handoffs b s) h

-- While no load ends, a queue whose ids differ keeps differing ids, whatever the streams bring and
-- whatever is escalated or dismissed.
queue-HasDistinctIds :
    (s : Page) (es : List Event)
    → All IsNoLoad es
    → HasDistinctIds s.alerts
    → HasDistinctIds (run s es).alerts
unfolding run
queue-HasDistinctIds s [] v h = h
queue-HasDistinctIds s (e ∷ es) (v, vs) h =
    queue-HasDistinctIds (step e s) es vs (step-HasDistinctIds e s v h)
