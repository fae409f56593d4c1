-- ===== src/Endpoints/Isolation.antt =====
-- soc-frontend/src/pages/endpoints/IsolationControlsPage.tsx: cutting hosts off the network and
-- letting them back, behind a dialog that wants the host's name typed.
pub mod View
pub mod Confirmation
pub mod Repeats
pub mod Outcome
use Prim.Native.String.{String, ◌++◌ as str_append}
use text.Mathlib.Text.{◌==◌ as str_eq}
use homelabs_siem_soar.Prelude.{
  ℕ, zero, suc, Bool, true, false, Option, none, some, List, [], ◌∷◌, ◌++◌, map, get_elem?,
  remove_at, ltb, decimal, if◌then◌else◌,
}
use homelabs_siem_soar.Hooks.AsyncState.{AsyncState, Reply, initial, begin, settle}
use homelabs_siem_soar.Investigations.Types.{ActionInfo, destructive, high_impact_write}

-- `EnhancedEndpointHost`, the fields that the page reads.
pub record Host : Type 0 where
  pub id : String
  pub hostname : String
  pub ip_address : String
  pub is_isolated : Bool
  pub ai_recommended : Bool
  pub isolation_history_count : ℕ
  pub services : List String
  pub auto_release_at : Option String

-- A host of the reply; the fields that it may lack are options.
pub record RawHost : Type 0 where
  pub id : String
  pub hostname : String
  pub ip_address : String
  pub is_isolated : Bool
  pub ai_recommended : Option Bool
  pub isolation_history_count : Option ℕ
  pub services : Option (List String)
  pub auto_release_at : Option String

abbrev or_else {ℓ} : {A : Type ℓ} → Option A → A → A
or_else none d = d
or_else (some a) d = a

unfoldable pub enhance : RawHost → Host
enhance h = record {
  id = h.id;
  hostname = h.hostname;
  ip_address = h.ip_address;
  is_isolated = h.is_isolated;
  ai_recommended = or_else h.ai_recommended false;
  isolation_history_count = or_else h.isolation_history_count 0;
  services = or_else h.services ("System Daemon" ∷ []);
  auto_release_at = h.auto_release_at;
}

pub data Kind : Type 0 where
  isolate release : Kind

pub record Pending : Type 0 where
  pub host : Host
  pub kind : Kind

-- A request to `/endpoints/{id}/isolate` with the hours, or to `/endpoints/{id}/release`.
pub data Post : Type 0 where
  post_isolate : (id : String) (auto_release_hours : ℕ) → Post
  post_release : (id : String) → Post

pub record Page : Type 0 where
  pub table : AsyncState (List Host)
  pub pending_action : Option Pending
  pub two_key_input : String
  pub auto_release_hours : ℕ
  pub checklist : Option Host  -- `postIsolationChecklist`
  pub in_flight : List Pending  -- the action that each request in flight closed over
  pub posted : List Post  -- all requests, latest first
  pub failures : ℕ  -- alerts "Action failed."

unfoldable pub start : Page
start = record {
  table = initial;
  pending_action = none;
  two_key_input = "";
  auto_release_hours = 0;
  checklist = none;
  in_flight = [];
  posted = [];
  failures = 0;
}

unfoldable pub post_of : Kind → Host → ℕ → Post
post_of isolate host hours = post_isolate host.id hours
post_of release host hours = post_release host.id

-- `performAction` up to its `await`.
perform_with : Option Pending → Page → Page
unfolding post_of
perform_with none s = s
perform_with (some p) s = record s {
  in_flight = s.in_flight ++ p ∷ [];
  posted = post_of p.kind p.host s.auto_release_hours ∷ s.posted;
}

perform_action : Page → Page
unfolding perform_with
perform_action s = perform_with s.pending_action s

-- The `finally` block.
abbrev reset : Page → Page
reset s = record s { pending_action = none; two_key_input = ""; auto_release_hours = 0 }

succeeded : Kind → Host → Page → Page
unfolding begin
succeeded isolate host s = record s { checklist = some host; table = begin s.table }
succeeded release host s = record s { table = begin s.table }

settle_with : Option Pending → ℕ → Bool → Page → Page
unfolding succeeded
settle_with none i success s = s
settle_with (some p) i true s =
    reset (succeeded p.kind p.host (record s { in_flight = remove_at s.in_flight i }))
settle_with (some p) i false s =
    reset (record s { in_flight = remove_at s.in_flight i; failures = suc s.failures })

-- The end of the request at a place of the list.
unfoldable pub action_settled : ℕ → Bool → Page → Page
unfolding settle_with
action_settled i success s = settle_with (get_elem? s.in_flight i) i success s

unfoldable pub justification : ℕ → String
justification hours =
    str_append "Containment for investigation" (
      if ltb 0 hours then str_append " (Auto-release in " (str_append (decimal hours) "h)") else "")

-- `getActionInfo`.
unfoldable action_info : Option Pending → ℕ → Option ActionInfo
unfolding justification
action_info none hours = none
action_info (some p) hours = some (elim p.kind [
  | isolate ↦ record {
    action = "Isolate Host";
    target = p.host.hostname;
    justification = justification hours;
    risk = destructive;
  }
  | release ↦ record {
    action = "Release Isolation";
    target = p.host.hostname;
    justification = "Restoring network connectivity";
    risk = high_impact_write;
  }
])

-- `disabled={twoKeyInput !== pendingAction.host.hostname}`, the other way round.
unfoldable pub can_execute : Option Pending → String → Bool
can_execute none input = false
can_execute (some p) input = str_eq input p.host.hostname

pub data Event : Type 0 where
  replied : Reply (List Host) → Event
  opened : Kind → Host → Event
  typed : String → Event
  hours_chosen : ℕ → Event
  cancelled : Event
  execute_clicked : Event
  ended : ℕ → Bool → Event
  done : Event

-- A click on a disabled button does nothing.
unfoldable pub step : Event → Page → Page
unfolding can_execute perform_action action_settled settle
step (replied r) s = record s { table = settle r s.table }
step (opened kind host) s = record s { pending_action = some (record { host = host; kind = kind }) }
step (typed text) s = record s { two_key_input = text }
step (hours_chosen n) s = record s { auto_release_hours = n }
step cancelled s = record s { pending_action = none; two_key_input = "" }
step execute_clicked s =
    if can_execute s.pending_action s.two_key_input then perform_action s else s
step (ended i success) s = action_settled i success s
step done s = record s { checklist = none }

unfoldable pub run : Page → List Event → Page
unfolding step
run s [] = s
run s (e ∷ es) = run (step e s) es
