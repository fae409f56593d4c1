-- ===== src/Endpoints/Hosts/Admin.antt =====
-- The requests of HostManagementPage.tsx to `/admin`, and the events of the whole page.
pub mod Tokens
use Prim.Native.String.{String, ◌++◌ as str_append}
use homelabs_siem_soar.Prelude.{
  ℕ, zero, suc, Bool, true, false, not, ◌&&◌, Option, none, some, List, [], ◌∷◌, ◌++◌, get_elem?,
  remove_at, if◌then◌else◌, trim, is_empty, text_or,
}
use homelabs_siem_soar.Hooks.AsyncState.{AsyncState, begin}
use homelabs_siem_soar.Endpoints.Fleet.{Host, RawHost, ViewFilter}
use homelabs_siem_soar.Endpoints.Hosts.{
  BulkAction, ToastType, success, warning, error, Toast, EnrollForm, TokenDetails, Request,
  token_request, rotate_request, task_request, Failure, Outcome, succeeded, failed_with, Page,
  show_toast, load_settled, on_endpoint_event, handle_bulk_action, bulk_tick, toggle_select_all,
  toggle_select, bulk_buttons_shown,
}

send : Request → Page → Page
send r s = record s { in_flight = s.in_flight ++ r ∷ [] }

-- `handleGenerateEnrollmentToken` up to its `await`.
unfoldable pub handle_generate_token : Page → Page
unfolding send
handle_generate_token s =
    if is_empty (trim s.enroll.tenant_id)
    then s
    else send (token_request s.enroll) (record s { is_generating_token = true })

rotate_if : Option Host → Page → Page
unfolding send
rotate_if none s = s
rotate_if (some h) s = send (rotate_request h) (record s { rotate_confirm_host = none })

-- `handleRotateCredential` up to its `await`.
unfoldable pub handle_rotate : Page → Page
unfolding rotate_if
handle_rotate s = rotate_if s.rotate_confirm_host s

-- `handleDispatchSoarTask`, called for an option with a value.
unfoldable pub handle_dispatch : String → String → String → Page → Page
unfolding send
handle_dispatch endpoint_id action_name hostname s =
    if is_empty action_name then s else send (task_request endpoint_id action_name hostname) s

-- The body of the request and the path it goes to.
pub data Body : Type 0 where
  token_body : (tenant_id : String) (expires_in max_use : ℕ) → Body
  no_body : Body
  task_body : (action triggered_by : String) → Body

unfoldable pub post_of : Request → String × Body
post_of (token_request form) =
    ("/admin/enrollment-tokens", token_body (trim form.tenant_id) form.expires_in form.max_use)
post_of (rotate_request h) = (str_append "/admin/endpoints/" (str_append h.id "/rotate"), no_body)
post_of (task_request endpoint_id action_name hostname) = (
  str_append "/admin/endpoints/" (str_append endpoint_id "/tasks"),
  task_body action_name "soc-admin-ui",
)

details_of : EnrollForm → String → String → TokenDetails
details_of form token created_at = record {
  token = token;
  tenant_id = trim form.tenant_id;
  expires_in = form.expires_in;
  max_use = form.max_use;
  endpoint_type = form.endpoint_type;
  created_at = created_at;
}

-- What a handler does after its `await`.
settle_one : Request → Outcome → Page → Page
unfolding show_toast details_of begin
settle_one (token_request form) (succeeded token created_at) s =
    show_toast "Enrollment Token Created"
      (str_append "Generated one-time token for tenant '" (str_append form.tenant_id "'")) success
      (record s {
        generated_token = some (details_of form token created_at);
        is_generating_token = false;
      })
settle_one (token_request form) (failed_with f) s =
    show_toast "Failed to Generate Token" (text_or f.detail (text_or f.message "Server error"))
      error (record s { is_generating_token = false })
settle_one (rotate_request h) (succeeded token created_at) s =
    show_toast "Credential Rotated"
      (str_append "Endpoint " (str_append h.hostname " rotated. Agent must re-enroll.")) warning
      (record s { table = begin s.table })
settle_one (rotate_request h) (failed_with f) s =
    show_toast "Rotation Failed" (text_or f.detail "Failed to rotate credential") error s
settle_one (task_request endpoint_id action_name hostname) (succeeded token created_at) s =
    show_toast "SOAR Task Dispatched"
      (str_append "Command '"
        (str_append action_name (str_append "' assigned to host " (str_append hostname "."))))
      success s
settle_one (task_request endpoint_id action_name hostname) (failed_with f) s =
    show_toast "Dispatch Error" (text_or f.detail "Failed to dispatch SOAR task") error s

settle_found : Option Request → ℕ → Outcome → Page → Page
unfolding settle_one
settle_found none i o s = s
settle_found (some r) i o s = settle_one r o (record s { in_flight = remove_at s.in_flight i })

-- The request at a place of the list ends.
unfoldable pub request_settled : ℕ → Outcome → Page → Page
unfolding settle_found
request_settled i o s = settle_found (get_elem? s.in_flight i) i o s

pub data Event : Type 0 where
  load_ended : Option String → List RawHost → Bool → Event
  endpoint_event : Bool → String → Event
  filter_chosen : ViewFilter → Event
  searched : String → Event
  row_toggled : String → Event
  all_toggled : Event
  selection_cleared : Event
  bulk_clicked : BulkAction → Event
  bulk_timer : Bool → Event
  enroll_opened : Event
  enroll_closed : Event
  form_changed : EnrollForm → Event
  another_token : Event
  token_submitted : Event
  rotate_opened : Host → Event
  rotate_cancelled : Event
  rotate_confirmed : Event
  task_chosen : (endpoint_id action_name hostname : String) → Event
  request_ended : ℕ → Outcome → Event
  toast_elapsed : Event

-- The form is shown, and its button is not disabled.
unfoldable pub form_ready : Page → Bool
form_ready s = elim s.generated_token [
  | none ↦ s.is_enroll_modal_open && not s.is_generating_token
  | some d ↦ false
]

-- Buttons that are hidden or disabled take no click.
unfoldable pub step : (String → String) → Event → Page → Page
unfolding handle_generate_token handle_rotate handle_dispatch request_settled
step lower (load_ended message hs b) s = load_settled message hs b s
step lower (endpoint_event handled id) s = on_endpoint_event handled id s
step lower (filter_chosen f) s = record s { view_filter = f }
step lower (searched term) s = record s { search_term = term }
step lower (row_toggled id) s = toggle_select id s
step lower all_toggled s = toggle_select_all lower s
step lower selection_cleared s = if bulk_buttons_shown s then record s { selected_ids = [] } else s
step lower (bulk_clicked action) s = if bulk_buttons_shown s then handle_bulk_action action s else s
step lower (bulk_timer fails) s = bulk_tick fails s
step lower enroll_opened s = record s { is_enroll_modal_open = true; generated_token = none }
step lower enroll_closed s = record s { is_enroll_modal_open = false }
step lower (form_changed form) s = record s { enroll = form }
step lower another_token s = record s { generated_token = none }
step lower token_submitted s = if form_ready s then handle_generate_token s else s
step lower (rotate_opened h) s = record s { rotate_confirm_host = some h }
step lower rotate_cancelled s = record s { rotate_confirm_host = none }
step lower rotate_confirmed s = handle_rotate s
step lower (task_chosen endpoint_id action_name hostname) s =
    handle_dispatch endpoint_id action_name hostname s
step lower (request_ended i o) s = request_settled i o s
step lower toast_elapsed s = record s { toast = none }

unfoldable pub run : (String → String) → Page → List Event → Page
unfolding step
run lower s [] = s
run lower s (e ∷ es) = run lower (step lower e s) es
