-- ===== src/Investigations/Context.antt =====
-- soc-frontend/src/features/investigations/store/InvestigationContext.tsx: the store of alerts, of
-- the selected investigation and of the two-key modal. Each `async` callback is cut at its `await`:
-- what it captured waits in a list until its request ends.
pub mod TwoKey
pub mod Selection
use Prim.Native.String.{String}
use text.Mathlib.Text.{◌==◌ as str_eq}
use homelabs_siem_soar.Prelude.{
  ℕ, zero, suc, Bool, true, false, ◌||◌, Option, none, some, List, [], ◌∷◌, ◌++◌, get_elem?,
  remove_at, trim, if◌then◌else◌,
}
use homelabs_siem_soar.Investigations.Types.{
  Alert, Risk, read_only, low_impact_write, high_impact_write, destructive, ActionInfo,
  InvestigationData,
}

pub record Modal : Type 0 where
  pub show : Bool
  pub action : Option ActionInfo
  pub input : String

unfoldable pub closed : Modal
closed = record { show = false; action = none; input = "" }

pub record Context : Type 0 where
  pub alerts : List Alert
  pub alerts_loading : Bool
  pub alerts_error : Option String
  pub selected_alert : Option Alert
  pub investigation : Option InvestigationData
  pub two_key_modal : Modal
  pub viewing : List Alert  -- the alerts whose investigation is being fetched
  pub executed : List ActionInfo  -- the bodies posted to `/data/actions/execute`, latest first
  pub executing : ℕ  -- those that have not ended

unfoldable pub start : Context
unfolding closed
start = record {
  alerts = [];
  alerts_loading = true;
  alerts_error = none;
  selected_alert = none;
  investigation = none;
  two_key_modal = closed;
  viewing = [];
  executed = [];
  executing = 0;
}

fetch_alerts : Context → Context
fetch_alerts s = record s { alerts_loading = true; alerts_error = none }

-- The end of `fetchAlerts`: a list, or an error.
alerts_settled : Option (List Alert) → Context → Context
alerts_settled (some alerts) s = record s { alerts = alerts; alerts_loading = false }
alerts_settled none s = record s {
  alerts_loading = false;
  alerts_error = some "Failed to load alerts. The backend may be unreachable.";
}

set_selected_alert : Option Alert → Context → Context
set_selected_alert alert s = record s { selected_alert = alert }

view_investigation : Alert → Context → Context
view_investigation alert s = record s {
  selected_alert = some alert;
  investigation = none;
  viewing = s.viewing ++ alert ∷ [];
}

-- The end of the request at a place of the list; an error is only logged.
view_settled : ℕ → Option InvestigationData → Context → Context
view_settled i none s = record s { viewing = remove_at s.viewing i }
view_settled i (some found) s = record s {
  viewing = remove_at s.viewing i;
  investigation = some found;
}

abbrev pub needs_two_keys : Risk → Bool
needs_two_keys destructive = true
needs_two_keys high_impact_write = true
needs_two_keys _ = false

-- An action that needs no second key is left as it is: the branch is empty.
unfoldable pub handle_action_approve : ActionInfo → Context → Context
handle_action_approve action s =
    if needs_two_keys action.risk
    then record s { two_key_modal = record { show = true; action = some action; input = "" } }
    else s

-- `setTwoKeyModal`, which the store hands out as it is: an update of any kind, or a constant one for a
-- new value.
unfoldable set_two_key_modal : (Modal → Modal) → Context → Context
set_two_key_modal update s = record s { two_key_modal = update s.two_key_modal }

-- `confirmTwoKeyAction` up to its `await`, by the modal that it closes over.
unfoldable pub confirm_with : Option ActionInfo → String → Context → Context
unfolding closed
confirm_with none input s = record s { two_key_modal = closed }
confirm_with (some action) input s =
    if str_eq (trim input) action.target
    then record s { executed = action ∷ s.executed; executing = suc s.executing }
    else record s { two_key_modal = closed }

unfoldable pub confirm_two_key_action : Context → Context
unfolding confirm_with
confirm_two_key_action s = confirm_with s.two_key_modal.action s.two_key_modal.input s

ended : ℕ → Context → Context
unfolding closed
ended zero s = s
ended (suc n) s = record s { executing = n; two_key_modal = closed }

-- The `finally` of a posted action, whether it succeeded or not.
unfoldable execute_settled : Context → Context
unfolding ended
execute_settled s = ended s.executing s

pub data Event : Type 0 where
  fetched : Event
  alerts_ended : Option (List Alert) → Event
  selected : Option Alert → Event
  viewed : Alert → Event
  view_ended : ℕ → Option InvestigationData → Event
  approved : ActionInfo → Event
  modal_set : (Modal → Modal) → Event
  confirmed : Event
  execute_ended : Event

unfoldable pub step : Event → Context → Context
unfolding fetch_alerts alerts_settled set_selected_alert view_investigation view_settled
    handle_action_approve set_two_key_modal confirm_two_key_action execute_settled
step fetched s = fetch_alerts s
step (alerts_ended r) s = alerts_settled r s
step (selected alert) s = set_selected_alert alert s
step (viewed alert) s = view_investigation alert s
step (view_ended i r) s = view_settled i r s
step (approved action) s = handle_action_approve action s
step (modal_set update) s = set_two_key_modal update s
step confirmed s = confirm_two_key_action s
step execute_ended s = execute_settled s

unfoldable pub run : Context → List Event → Context
unfolding step
run s [] = s
run s (e ∷ es) = run (step e s) es
