-- ===== src/Dashboards/Overview.antt =====
-- soc-frontend/src/pages/dashboards/OverviewPage.tsx: the queue of alerts and the activities. The
-- minutes since an alert, and what is drawn at random for it, are arguments.
pub mod Activities
pub mod Queue
use Prim.Native.String.{String, ◌++◌ as append}
use text.Mathlib.Text.{◌==◌ as str_eq}
use homelabs_siem_soar.Prelude.{
  ℕ, zero, suc, Bool, true, false, not, ◌&&◌, ◌==◌, Option, none, some, List, [], ◌∷◌, ◌++◌, any,
  map, map_from, filter_by, get_elem?, remove_at, take, text_or, is_empty, ltb, if◌then◌else◌,
}
use homelabs_siem_soar.Prelude.Int.{ℤ, pos, negsuc}
use homelabs_siem_soar.Hooks.AsyncState.{Reply, ok, failed}

pub record AlertItem : Type 0 where
  pub id : String
  pub kind : String
  pub severity : ℕ
  pub assigned_to : String
  pub sla_minutes_remaining : ℤ

-- An alert of the reply. `elapsed` counts the whole minutes since its creation.
pub record RawAlert : Type 0 where
  pub id : Option String
  pub kind : Option String
  pub severity : Option ℕ
  pub assigned_to : Option String
  pub assignee : Option String  -- `assignedTo`
  pub elapsed : ℕ

-- What is drawn for an alert without an id or an assignee.
pub record Random : Type 0 where
  pub id : String
  pub assigned_to : String

-- `a - b`.
unfoldable pub diff : ℕ → ℕ → ℤ
diff a zero = pos a
diff zero (suc b) = negsuc b
diff (suc a) (suc b) = diff a b

sla_budget : Option ℕ → ℕ
sla_budget none = 120
sla_budget (some severity) = if severity == 1 then 15 else if severity == 2 then 45 else 120

abbrev severity_or : Option ℕ → ℕ → ℕ
severity_or none d = d
severity_or (some n) d = n

parse_alert : (ℕ → Random) → ℕ → RawAlert → AlertItem
unfolding diff sla_budget
parse_alert random i item = record {
  id = text_or item.id (random i).id;
  kind = text_or item.kind "Suspicious Activity";
  severity = severity_or item.severity 2;
  assigned_to = text_or item.assigned_to (text_or item.assignee (random i).assigned_to);
  sla_minutes_remaining = diff (sla_budget item.severity) item.elapsed;
}

-- A message of the alert stream.
pub record NewAlert : Type 0 where
  pub id : Option String
  pub kind : Option String
  pub severity : Option ℕ

abbrev is_one : Option ℕ → Bool
is_one none = false
is_one (some n) = n == 1

unfoldable pub parse_new : String → NewAlert → AlertItem
parse_new id a = record {
  id = id;
  kind = text_or a.kind "Realtime Alert";
  severity = severity_or a.severity 1;
  assigned_to = "me";
  sla_minutes_remaining = pos (if is_one a.severity then 15 else 45);
}

pub data ActivityType : Type 0 where
  system alert info : ActivityType

pub record ActivityEvent : Type 0 where
  pub time : String
  pub msg : String
  pub kind : ActivityType

-- A message of the agent stream.
pub record AgentMessage : Type 0 where
  pub message : Option String
  pub msg : Option String
  pub node : Option String

pub data Notice : Type 0 where
  escalated_to_lead : String → Notice
  escalated : String → Notice
  handoff_persisted : Notice
  handoff_compiled : Notice

pub record Page : Type 0 where
  pub my_queue_only : Bool
  pub alerts : List AlertItem
  pub activities : List ActivityEvent
  pub handoff_generating : Bool
  pub loads : ℕ  -- the requests of `fetchAlerts` in flight
  pub escalations : List String  -- the alerts of the requests in flight
  pub dismissals : List String
  pub handoffs : ℕ
  pub notices : List Notice  -- the texts of `alert`, latest first

-- The first rendering, with its load.
unfoldable pub start : Page
start = record {
  my_queue_only = false;
  alerts = [];
  activities = [];
  handoff_generating = false;
  loads = 1;
  escalations = [];
  dismissals = [];
  handoffs = 0;
  notices = [];
}

-- The end of `fetchAlerts`; a reply that is no array counts as failed.
alerts_settled : ℕ → (ℕ → Random) → Reply (List RawAlert) → Page → Page
unfolding parse_alert
alerts_settled zero random reply s = s
alerts_settled (suc n) random (ok items) s = record s {
  loads = n;
  alerts = map_from 0 (parse_alert random) items;
}
alerts_settled (suc n) random (failed message) s = record s { loads = n }

abbrev pub is_listed : String → List AlertItem → Bool
is_listed id alerts = any (λ a. str_eq a.id id) alerts

-- `[activity, ...prev.slice(0, 19)]`.
unfoldable pub record_activity : ActivityEvent → List ActivityEvent → List ActivityEvent
record_activity a prev = a ∷ take 19 prev

unfoldable pub alert_activity : String → String → NewAlert → ActivityEvent
alert_activity now id a = record {
  time = now;
  msg =
      append "High-priority alert "
        (append id (append " triggered: " (text_or a.kind "Detection")));
  kind = alert;
}

-- The two updates for an alert with an id; an alert that is listed is recorded all the same.
unfoldable pub new_alert : String → String → NewAlert → Page → Page
unfolding parse_new record_activity alert_activity
new_alert now id a s = record s {
  alerts = if is_listed id s.alerts then s.alerts else parse_new id a ∷ s.alerts;
  activities = record_activity (alert_activity now id a) s.activities;
}

found_id : Option String → String → NewAlert → Page → Page
unfolding new_alert
found_id none now a s = s
found_id (some id) now a s = if is_empty id then s else new_alert now id a s

-- The callback of the alert stream.
unfoldable pub on_alert : String → NewAlert → Page → Page
unfolding found_id
on_alert now a s = found_id a.id now a s

abbrev is_triage : Option String → Bool
is_triage none = false
is_triage (some node) = str_eq node "LLMTriage"

unfoldable pub agent_activity : String → AgentMessage → ActivityEvent
agent_activity now m = record {
  time = now;
  msg =
      text_or m.message (text_or m.msg (append (text_or m.node "Agent") " executed successfully"));
  kind = if is_triage m.node then system else info;
}

-- The callback of the agent stream.
unfoldable pub on_agent : String → AgentMessage → Page → Page
unfolding record_activity agent_activity
on_agent now m s = record s { activities = record_activity (agent_activity now m) s.activities }

unfoldable pub escalate_if : String → AlertItem → AlertItem
escalate_if id a = if str_eq a.id id then record a { severity = 1 } else a

-- `handleEscalate` after its `await`, which either says that the alert was escalated.
escalate_ended : Option String → ℕ → Bool → Page → Page
unfolding escalate_if
escalate_ended none i succeeded s = s
escalate_ended (some id) i true s = record s {
  alerts = map (escalate_if id) s.alerts;
  escalations = remove_at s.escalations i;
  notices = escalated_to_lead id ∷ s.notices;
}
escalate_ended (some id) i false s = record s {
  escalations = remove_at s.escalations i;
  notices = escalated id ∷ s.notices;
}

unfoldable pub escalate_settled : ℕ → Bool → Page → Page
unfolding escalate_ended
escalate_settled i succeeded s = escalate_ended (get_elem? s.escalations i) i succeeded s

-- `handleFalsePositive` after its `await`; both branches are written alike.
dismiss_ended : Option String → ℕ → Bool → Page → Page
dismiss_ended none i succeeded s = s
dismiss_ended (some id) i true s = record s {
  alerts = filter_by (λ a. not (str_eq a.id id)) s.alerts;
  dismissals = remove_at s.dismissals i;
}
dismiss_ended (some id) i false s = record s {
  alerts = filter_by (λ a. not (str_eq a.id id)) s.alerts;
  dismissals = remove_at s.dismissals i;
}

unfoldable pub dismiss_settled : ℕ → Bool → Page → Page
unfolding dismiss_ended
dismiss_settled i succeeded s = dismiss_ended (get_elem? s.dismissals i) i succeeded s

-- A click on the button of the handoff note, which is disabled while one is generated.
unfoldable pub handoff_clicked : Page → Page
handoff_clicked s =
    if s.handoff_generating
    then s
    else record s { handoff_generating = true; handoffs = suc s.handoffs }

handoff_ended : ℕ → Bool → Page → Page
handoff_ended zero succeeded s = s
handoff_ended (suc n) succeeded s = record s {
  handoff_generating = false;
  handoffs = n;
  notices = (if succeeded then handoff_persisted else handoff_compiled) ∷ s.notices;
}

pub data Event : Type 0 where
  queue_chosen : Bool → Event
  load_ended : (ℕ → Random) → Reply (List RawAlert) → Event
  alert_came : String → NewAlert → Event
  agent_came : String → AgentMessage → Event
  escalate_pressed : String → Event
  escalate_replied : ℕ → Bool → Event
  dismiss_pressed : String → Event
  dismiss_replied : ℕ → Bool → Event
  handoff_pressed : Event
  handoff_replied : Bool → Event

unfoldable pub step : Event → Page → Page
unfolding alerts_settled on_alert on_agent escalate_settled dismiss_settled handoff_clicked
    handoff_ended
step (queue_chosen mine) s = record s { my_queue_only = mine }
step (load_ended random reply) s = alerts_settled s.loads random reply s
step (alert_came now a) s = on_alert now a s
step (agent_came now m) s = on_agent now m s
step (escalate_pressed id) s = record s { escalations = s.escalations ++ id ∷ [] }
step (escalate_replied i succeeded) s = escalate_settled i succeeded s
step (dismiss_pressed id) s = record s { dismissals = s.dismissals ++ id ∷ [] }
step (dismiss_replied i succeeded) s = dismiss_settled i succeeded s
step handoff_pressed s = handoff_clicked s
step (handoff_replied succeeded) s = handoff_ended s.handoffs succeeded s

unfoldable pub run : Page → List Event → Page
unfolding step
run s [] = s
run s (e ∷ es) = run (step e s) es

-- `filteredAlerts`.
unfoldable filtered_alerts : Page → List AlertItem
filtered_alerts s =
    if s.my_queue_only then filter_by (λ a. str_eq a.assigned_to "me") s.alerts else s.alerts
