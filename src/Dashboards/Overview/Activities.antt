-- ===== src/Dashboards/Overview/Activities.antt =====
-- The activities that the page lists.
use Prim.Native.String.{String}
use homelabs_siem_soar.Prelude.{
  ℕ, zero, suc, ◌≤◌, ◌≡◌, refl, ap, ◌∙◌, Bool, true, false, Option, none, some, List, [], ◌∷◌, ◌++◌,
  arith, length, take, get_elem?, is_empty, Bool-cases, inl, inr, if◌then◌else◌,
}
use homelabs_siem_soar.Hooks.AsyncState.{Reply, ok, failed}
use homelabs_siem_soar.Dashboards.Overview.{
  ActivityEvent, NewAlert, RawAlert, Random, Page, Event, queue_chosen, load_ended, alert_came,
  agent_came, escalate_pressed, escalate_replied, dismiss_pressed, dismiss_replied, handoff_pressed,
  handoff_replied, start, alert_activity, agent_activity, record_activity, on_alert, found_id,
  new_alert, on_agent, alerts_settled, escalate_settled, escalate_ended, dismiss_settled,
  dismiss_ended, handoff_clicked, handoff_ended, step, run,
}

abbrev most_activities : ℕ
most_activities = 20

-- What an alert is recorded as: nothing if it has no id.
abbrev recorded_alert : Option String → String → NewAlert → List ActivityEvent
recorded_alert none now a = []
recorded_alert (some id) now a = if is_empty id then [] else alert_activity now id a ∷ []

abbrev activity_of : Event → List ActivityEvent
activity_of (alert_came now a) = recorded_alert a.id now a
activity_of (agent_came now m) = agent_activity now m ∷ []
activity_of _ = []

-- Everything that the streams brought after some activities, latest first.
abbrev pub recorded : List ActivityEvent → List Event → List ActivityEvent
recorded earlier [] = earlier
recorded earlier (e ∷ es) = recorded (activity_of e ++ earlier) es

take-take {ℓ} : {A : Type ℓ} (m n : ℕ) (xs : List A) → m ≤ n → take m (take n xs) ≡ take m xs
take-take zero n xs h = refl
take-take (suc m) zero xs h = absurd (omega arith)
take-take (suc m) (suc n) [] h = refl
take-take (suc m) (suc n) (x ∷ xs) h = ap (λ r. x ∷ r) (take-take m n xs (omega arith))

length-take {ℓ} : {A : Type ℓ} (n : ℕ) (xs : List A) → length (take n xs) ≤ n
length-take zero xs = omega arith
length-take (suc n) [] = omega arith
length-take (suc n) (x ∷ xs) = omega (arith, length-take n xs)

record-take :
    (a : ActivityEvent) (all : List ActivityEvent)
    → record_activity a (take most_activities all) ≡ take most_activities (a ∷ all)
unfolding record_activity
record-take a all = ap (λ r. a ∷ r) (take-take 19 20 all (omega arith))

-- The page lists the latest of all activities.
abbrev Lists : List ActivityEvent → Page → Type 0
Lists all s = s.activities ≡ take most_activities all

alert-Lists :
    (o : Option String) (now : String) (a : NewAlert) (all : List ActivityEvent) (s : Page)
    → Lists all s
    → Lists (recorded_alert o now a ++ all) (found_id o now a s)
unfolding found_id new_alert
alert-Lists none now a all s h = h
alert-Lists (some id) now a all s h = elim (Bool-cases (is_empty id)) [
  | inl e ↦ rw e h
  | inr e ↦ rw e (rw h (record-take (alert_activity now id a) all))
]

load-same :
    (n : ℕ) (random : ℕ → Random) (reply : Reply (List RawAlert)) (s : Page)
    → (alerts_settled n random reply s).activities ≡ s.activities
unfolding alerts_settled
load-same zero random reply s = refl
load-same (suc n) random (ok items) s = refl
load-same (suc n) random (failed message) s = refl

escalate-same :
    (o : Option String) (i : ℕ) (b : Bool) (s : Page)
    → (escalate_ended o i b s).activities ≡ s.activities
unfolding escalate_ended
escalate-same none i b s = refl
escalate-same (some id) i true s = refl
escalate-same (some id) i false s = refl

dismiss-same :
    (o : Option String) (i : ℕ) (b : Bool) (s : Page)
    → (dismiss_ended o i b s).activities ≡ s.activities
unfolding dismiss_ended
dismiss-same none i b s = refl
dismiss-same (some id) i true s = refl
dismiss-same (some id) i false s = refl

handoff-same : (n : ℕ) (b : Bool) (s : Page) → (handoff_ended n b s).activities ≡ s.activities
unfolding handoff_ended
handoff-same zero b s = refl
handoff-same (suc n) b s = refl

step-Lists :
    (e : Event) (all : List ActivityEvent) (s : Page)
    → Lists all s
    → Lists (activity_of e ++ all) (step e s)
unfolding step on_alert on_agent escalate_settled dismiss_settled handoff_clicked
step-Lists (queue_chosen mine) all s h = h
step-Lists (load_ended random reply) all s h = load-same s.loads random reply s ∙ h
step-Lists (alert_came now a) all s h = alert-Lists a.id now a all s h
step-Lists (agent_came now m) all s h = rw h (record-take (agent_activity now m) all)
step-Lists (escalate_pressed id) all s h = h
step-Lists (escalate_replied i b) all s h = escalate-same (get_elem? s.escalations i) i b s ∙ h
step-Lists (dismiss_pressed id) all s h = h
step-Lists (dismiss_replied i b) all s h = dismiss-same (get_elem? s.dismissals i) i b s ∙ h
step-Lists handoff_pressed all s h = ground (arith, h)
step-Lists (handoff_replied b) all s h = handoff-same s.handoffs b s ∙ h

run-Lists :
    (es : List Event) (all : List ActivityEvent) (s : Page)
    → Lists all s
    → Lists (recorded all es) (run s es)
unfolding run
run-Lists [] all s h = h
run-Lists (e ∷ es) all s h = run-Lists es (activity_of e ++ all) (step e s) (step-Lists e all s h)

-- Whatever the events, the page lists the latest twenty of the activities that the two streams have
-- brought, an alert that was listed already among them, latest first; so never more than twenty.
pub activities_are_latest :
    (es : List Event)
    → ((run start es).activities ≡ take most_activities (recorded [] es))
      × (length (run start es).activities ≤ most_activities)
activities_are_latest es =
    let same = run-Lists es [] start (unfold start in refl) in
    (same, rw same (length-take most_activities (recorded [] es)))
