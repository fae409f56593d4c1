-- ===== src/Endpoints/Hosts.antt =====
-- soc-frontend/src/pages/endpoints/HostManagementPage.tsx: selecting hosts, the bulk actions on them,
-- enrollment tokens, credential rotation and tasks. A handler is cut at each `await`, and what it
-- closed over is kept until it goes on.
pub mod BulkUpdate
pub mod Accounting
pub mod Admin
use Prim.Native.String.{String, ◌++◌ as str_append}
use homelabs_siem_soar.Prelude.{
  ℕ, zero, suc, ◌+◌, Bool, true, false, not, ◌&&◌, ◌||◌, Option, none, some, List, [], ◌∷◌, ◌++◌,
  map, length, get_elem?, remove_at, decimal, ltb, ◌==◌, if◌then◌else◌, trim, is_empty, or_default,
}
use text.Mathlib.Text.{◌==◌ as str_eq}
use homelabs_siem_soar.Prelude.IdSet.{IdSet, size, of_list, toggle}
use homelabs_siem_soar.Hooks.AsyncState.{AsyncState, initial, begin, settle, set_value, ok, failed}
use homelabs_siem_soar.Endpoints.Fleet.{
  Host, RawHost, HostType, iaas, ViewFilter, all_fleet, loaded, filtered,
}

pub data BulkAction : Type 0 where
  restart update : BulkAction

pub data ToastType : Type 0 where
  success info warning error : ToastType

pub record Toast : Type 0 where
  pub title : String
  pub desc : String
  pub toast_type : ToastType

pub record Progress : Type 0 where
  pub total : ℕ
  pub completed : ℕ
  pub failures : ℕ  -- `failed`

-- A run of `handleBulkAction`: what it closed over, its counters, and the ids that it has not
-- come to.
pub record BulkRun : Type 0 where
  pub action : BulkAction
  pub closed_data : Option (List Host)
  pub closed_size : ℕ
  pub queue : List String
  pub completed : ℕ
  pub failures : ℕ

-- The settings of the enrollment form.
pub record EnrollForm : Type 0 where
  pub tenant_id : String
  pub expires_in : ℕ
  pub max_use : ℕ
  pub endpoint_type : HostType

pub record TokenDetails : Type 0 where
  pub token : String
  pub tenant_id : String
  pub expires_in : ℕ
  pub max_use : ℕ
  pub endpoint_type : HostType
  pub created_at : String

-- A request in flight, with what its handler closed over.
pub data Request : Type 0 where
  token_request : EnrollForm → Request
  rotate_request : Host → Request
  task_request : (endpoint_id action_name hostname : String) → Request

-- A failed request: `e.response?.data?.detail` and `e.message`.
pub record Failure : Type 0 where
  pub detail : Option String
  pub message : Option String

-- How a request ends; the token and the time of day are read by a token request only.
pub data Outcome : Type 0 where
  succeeded : (token created_at : String) → Outcome
  failed_with : Failure → Outcome

pub record Page : Type 0 where
  pub table : AsyncState (List Host)
  pub selected_ids : IdSet
  pub bulk_action : Option BulkAction
  pub bulk_progress : Option Progress
  pub bulk_run : Option BulkRun
  pub view_filter : ViewFilter
  pub search_term : String
  pub is_enroll_modal_open : Bool
  pub enroll : EnrollForm
  pub is_generating_token : Bool
  pub generated_token : Option TokenDetails
  pub toast : Option Toast
  pub rotate_confirm_host : Option Host
  pub in_flight : List Request

unfoldable pub start : Page
start = record {
  table = initial;
  selected_ids = [];
  bulk_action = none;
  bulk_progress = none;
  bulk_run = none;
  view_filter = all_fleet;
  search_term = "";
  is_enroll_modal_open = false;
  enroll = record { tenant_id = "acme-corp"; expires_in = 900; max_use = 1; endpoint_type = iaas };
  is_generating_token = false;
  generated_token = none;
  toast = none;
  rotate_confirm_host = none;
  in_flight = [];
}

unfoldable pub show_toast : String → String → ToastType → Page → Page
show_toast title desc toast_type s = record s {
  toast = some (record { title = title; desc = desc; toast_type = toast_type });
}

-- The promise of the first `execute` or of a later one ends.
unfoldable pub load_settled : Option String → List RawHost → Bool → Page → Page
unfolding settle
load_settled message hs true s = record s { table = settle (ok (loaded hs)) s.table }
load_settled message hs false s = record s { table = settle (failed message) s.table }

-- A message of the endpoint socket: its type is one of the two that are handled, or another.
unfoldable pub on_endpoint_event : Bool → String → Page → Page
unfolding begin show_toast
on_endpoint_event true endpoint_id s =
    show_toast "Agent Connected"
      (str_append "Endpoint " (str_append endpoint_id " successfully enrolled in real-time.")) info
      (record s { table = begin s.table })
on_endpoint_event false endpoint_id s = s

-- `handleBulkAction` up to its first `await`.
unfoldable pub handle_bulk_action : BulkAction → Page → Page
handle_bulk_action action s = record s {
  bulk_action = some action;
  bulk_progress = some (record { total = size s.selected_ids; completed = 0; failures = 0 });
  bulk_run = some (record {
    action = action;
    closed_data = s.table.value;
    closed_size = size s.selected_ids;
    queue = s.selected_ids;
    completed = 0;
    failures = 0;
  });
}

unfoldable pub to_latest : String → Host → Host
to_latest id h = if str_eq h.id id then record h { agent_version = h.latest_version } else h

-- `if (action === 'update' && data) setData(…)`, on the `data` that the handler closed over.
unfoldable pub set_updated :
    BulkAction → Option (List Host) → String → AsyncState (List Host) → AsyncState (List Host)
unfolding set_value
set_updated update (some hs) id t = set_value (some (map (to_latest id) hs)) t
set_updated update none id t = t
set_updated restart hs id t = t

-- The turn of one id, after its 350 ms; `fails` is `Math.random() > 0.9`.
unfoldable pub bulk_turn : Bool → BulkRun → String → List String → Page → Page
bulk_turn fails r id rest s =
    let completed = if fails then r.completed else suc r.completed in
    let failures = if fails then suc r.failures else r.failures in
    record s {
      table = set_updated r.action r.closed_data id s.table;
      bulk_progress =
          some (record { total = r.closed_size; completed = completed; failures = failures });
      bulk_run = some (record r { queue = rest; completed = completed; failures = failures });
    }

action_text : BulkAction → String
action_text restart = "restart"
action_text update = "update"

-- The timeout of 1500 ms after the last id.
unfoldable pub bulk_done : BulkRun → Page → Page
unfolding show_toast action_text
bulk_done r s =
    let told =
      show_toast "Bulk Action Complete"
        (str_append "Successfully executed " (
          str_append (action_text r.action)
            (str_append " across " (str_append (decimal r.completed) " hosts."))))
        success s in
    record told { bulk_action = none; bulk_progress = none; bulk_run = none; selected_ids = [] }

bulk_next : Bool → BulkRun → List String → Page → Page
unfolding bulk_turn bulk_done
bulk_next fails r [] s = bulk_done r s
bulk_next fails r (id ∷ rest) s = bulk_turn fails r id rest s

bulk_tick_found : Bool → Option BulkRun → Page → Page
unfolding bulk_next
bulk_tick_found fails none s = s
bulk_tick_found fails (some r) s = bulk_next fails r r.queue s

-- The timer of the bulk run goes off.
unfoldable pub bulk_tick : Bool → Page → Page
unfolding bulk_tick_found
bulk_tick fails s = bulk_tick_found fails s.bulk_run s

-- `toggleSelectAll`; `lower` is `toLowerCase`.
unfoldable pub toggle_select_all : (String → String) → Page → Page
toggle_select_all lower s =
    let rows = filtered lower s.view_filter s.search_term s.table.value in
    record s {
      selected_ids =
          if size s.selected_ids == length rows then [] else of_list (map (λ h. h.id) rows);
    }

unfoldable pub toggle_select : String → Page → Page
toggle_select id s = record s { selected_ids = toggle s.selected_ids id }

-- `selectedIds.size > 0 || bulkProgress`, and then `!bulkProgress`: the bulk buttons are shown.
unfoldable pub bulk_buttons_shown : Page → Bool
bulk_buttons_shown s = elim s.bulk_progress [ none ↦ ltb 0 (size s.selected_ids) | some p ↦ false ]
