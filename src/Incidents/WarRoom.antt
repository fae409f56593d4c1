-- ===== src/Incidents/WarRoom.antt =====
-- soc-frontend/src/pages/incidents/WarRoomPage.tsx: the chat of an incident, its decisions, and the
-- link of the bridge. The time is an argument.
pub mod Decisions
use Prim.Native.String.{String}
use homelabs_siem_soar.Prelude.{
  Bool, true, false, Option, none, some, List, [], ◌∷◌, ◌++◌, filter_by, is_empty, trim,
  if◌then◌else◌,
}

pub record ChatMessage : Type 0 where
  pub id : String
  pub sender : String
  pub text : String
  pub timestamp : String
  pub is_decision : Option Bool

-- `m.isDecision` as a condition.
abbrev pub is_decision : ChatMessage → Bool
is_decision m = elim m.is_decision [ none ↦ false | some b ↦ b ]

pub record Page : Type 0 where
  pub messages : List ChatMessage
  pub draft : String
  pub is_decision_toggle : Bool
  pub bridge_link : String
  pub is_editing_bridge : Bool
  pub show_broadcast_modal : Bool
  pub show_post_mortem_modal : Bool

-- The two messages that the page begins with, an hour and some minutes before it is shown.
abbrev first_messages : String → String → List ChatMessage
first_messages hour_ago later =
    record {
      id = "1";
      sender = "System";
      text = "War Room initialized. Incident Commander not yet assigned.";
      timestamp = hour_ago;
      is_decision = none;
    }
    ∷ record {
      id = "2";
      sender = "Alice (IC)";
      text = "I am taking Incident Commander. Let's isolate the host.";
      timestamp = later;
      is_decision = some true;
    }
    ∷ []

unfoldable pub start : String → String → Page
start hour_ago later = record {
  messages = first_messages hour_ago later;
  draft = "";
  is_decision_toggle = false;
  bridge_link = "https://zoom.us/j/123456789 (Draft)";
  is_editing_bridge = false;
  show_broadcast_modal = false;
  show_post_mortem_modal = false;
}

unfoldable pub own_message : String → String → Page → ChatMessage
own_message id now s = record {
  id = id;
  sender = "You";
  text = s.draft;
  timestamp = now;
  is_decision = some s.is_decision_toggle;
}

-- `sendMessage`, with `Date.now()` as a text and as a time stamp.
unfoldable pub send_message : String → String → Page → Page
unfolding trim own_message
send_message id now s = if is_empty (trim s.draft) then s else record s {
  messages = s.messages ++ own_message id now s ∷ [];
  draft = "";
  is_decision_toggle = false;
}

pub data Event : Type 0 where
  message_came : ChatMessage → Event
  draft_typed : String → Event
  decision_toggled : Bool → Event
  form_submitted : String → String → Event
  bridge_typed : String → Event
  bridge_editing : Bool → Event
  broadcast_shown : Bool → Event
  post_mortem_shown : Bool → Event

unfoldable pub step : Event → Page → Page
unfolding send_message
step (message_came m) s = record s { messages = s.messages ++ m ∷ [] }
step (draft_typed value) s = record s { draft = value }
step (decision_toggled value) s = record s { is_decision_toggle = value }
step (form_submitted id now) s = send_message id now s
step (bridge_typed value) s = record s { bridge_link = value }
step (bridge_editing value) s = record s { is_editing_bridge = value }
step (broadcast_shown value) s = record s { show_broadcast_modal = value }
step (post_mortem_shown value) s = record s { show_post_mortem_modal = value }

unfoldable pub run : Page → List Event → Page
unfolding step
run s [] = s
run s (e ∷ es) = run (step e s) es

-- The log of decisions, in the side bar and in the draft of the post-mortem.
unfoldable pub decisions : Page → List ChatMessage
decisions s = filter_by is_decision s.messages
