-- ===== src/Investigations/Dashboard.antt =====
-- soc-frontend/src/features/investigations/ui/InvestigationDashboard.tsx: the page of one
-- investigation, with its log, which a stream extends, and the actions that wait for an approval.
pub mod Replies
pub mod Posts
use Prim.Native.String.{String}
use text.Mathlib.Text.{◌==◌ as str_eq}
use homelabs_siem_soar.Prelude.{
  ℕ, Bool, true, false, not, Option, none, some, List, [], ◌∷◌, ◌++◌, filter_by, get_elem?,
  remove_at, is_empty, if◌then◌else◌,
}
use homelabs_siem_soar.Hooks.AsyncState.{
  AsyncState, Reply, ok, failed, Screen, skeleton, failure, content, initial, begin, settle, screen,
}
use homelabs_siem_soar.Investigations.Types.{ActionInfo, LogEntry}

-- `res.data`, with `details` flattened; its lists may be missing.
pub record Body : Type 0 where
  pub source_ip : Option String
  pub conversation_log : Option (List LogEntry)
  pub proposed_actions : Option (List ActionInfo)

-- `list || []`.
abbrev pub list_of {ℓ} : {A : Type ℓ} → Option (List A) → List A
list_of none = []
list_of (some xs) = xs

pub record Post : Type 0 where
  pub session : Option String
  pub action : ActionInfo

pub data Notice : Type 0 where
  approved : String → Notice
  approve_failed : Notice

pub record Page : Type 0 where
  pub id : Option String
  pub investigation : AsyncState Body
  pub logs : List LogEntry
  pub actions : List ActionInfo
  pub loads : List (Option String)  -- the ids of the requests in flight
  pub approvals : List ActionInfo  -- `action` of each approval in flight
  pub posts : List Post  -- all that were sent, latest first
  pub notices : List Notice  -- the texts of `alert`, latest first

unfoldable pub start : Page
unfolding initial
start = record {
  id = none;
  investigation = initial;
  logs = [];
  actions = [];
  loads = [];
  approvals = [];
  posts = [];
  notices = [];
}

-- `execute` up to the `await` of its fetch.
unfoldable pub execute : Page → Page
unfolding begin
execute s = record s { investigation = begin s.investigation; loads = s.loads ++ s.id ∷ [] }

-- A new `id` in the address, and the effect that it causes.
unfoldable pub set_id : Option String → Page → Page
unfolding execute
set_id none s = record s { id = none }
set_id (some id) s =
    if is_empty id then record s { id = some id } else execute (record s { id = some id })

-- The rest of the fetch and of `execute`.
unfoldable pub settle_reply : Reply Body → Page → Page
unfolding settle
settle_reply (ok body) s = record s {
  investigation = settle (ok body) s.investigation;
  logs = list_of body.conversation_log;
  actions = list_of body.proposed_actions;
}
settle_reply (failed message) s = record s {
  investigation = settle (failed message) s.investigation;
}

load_found : Option (Option String) → ℕ → Reply Body → Page → Page
unfolding settle_reply
load_found none i reply s = s
load_found (some id) i reply s = settle_reply reply (record s { loads = remove_at s.loads i })

unfoldable pub load_settled : ℕ → Reply Body → Page → Page
unfolding load_found
load_settled i reply s = load_found (get_elem? s.loads i) i reply s

-- The callback of the stream.
on_log : LogEntry → Page → Page
on_log new_log s = record s { logs = s.logs ++ new_log ∷ [] }

-- `handleActionApprove` up to its `await`.
unfoldable pub handle_action_approve : ActionInfo → Page → Page
handle_action_approve action s = record s {
  approvals = s.approvals ++ action ∷ [];
  posts = record { session = s.id; action = action } ∷ s.posts;
}

-- Whether the page shows the cards: no skeleton, no failure, and `investigation` is there.
is_content : Screen → Option Body → Bool
is_content content (some body) = true
is_content _ _ = false

unfoldable pub shows_cards : Page → Bool
unfolding is_content screen
shows_cards s = is_content (screen s.investigation) s.investigation.value

approve_found : Option ActionInfo → Page → Page
unfolding handle_action_approve
approve_found none s = s
approve_found (some action) s = handle_action_approve action s

-- A click on the button of the card at a place.
unfoldable pub approve_clicked : ℕ → Page → Page
unfolding shows_cards approve_found
approve_clicked i s = if shows_cards s then approve_found (get_elem? s.actions i) s else s

approve_ended : Bool → ActionInfo → Page → Page
approve_ended true action s = record s {
  actions = filter_by (λ a. not (str_eq a.action action.action)) s.actions;
  notices = approved action.action ∷ s.notices;
}
approve_ended false action s = record s { notices = approve_failed ∷ s.notices }

ended_found : Option ActionInfo → ℕ → Bool → Page → Page
unfolding approve_ended
ended_found none i success s = s
ended_found (some action) i success s =
    approve_ended success action (record s { approvals = remove_at s.approvals i })

-- The end of the approval at a place of the list.
approve_settled : ℕ → Bool → Page → Page
unfolding ended_found
approve_settled i success s = ended_found (get_elem? s.approvals i) i success s

is_failure : Screen → Bool
is_failure (failure message) = true
is_failure _ = false

-- The retry button of the failure.
unfoldable pub retry : Page → Page
unfolding is_failure execute screen
retry s = if is_failure (screen s.investigation) then execute s else s

pub data Event : Type 0 where
  id_shown : Option String → Event
  load_ended : ℕ → Reply Body → Event
  log_arrived : LogEntry → Event
  approve_pressed : ℕ → Event
  approve_replied : ℕ → Bool → Event
  retry_pressed : Event

unfoldable pub step : Event → Page → Page
unfolding set_id load_settled on_log approve_clicked approve_settled retry
step (id_shown id) s = set_id id s
step (load_ended i reply) s = load_settled i reply s
step (log_arrived entry) s = on_log entry s
step (approve_pressed i) s = approve_clicked i s
step (approve_replied i success) s = approve_settled i success s
step retry_pressed s = retry s

unfoldable pub run : Page → List Event → Page
unfolding step
run s [] = s
run s (e ∷ es) = run (step e s) es
