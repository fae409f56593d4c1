-- ===== src/Endpoints/Hosts/Admin/Tokens.antt =====
-- How many token requests of HostManagementPage.tsx are open at a time.
use Prim.Native.String.{String}
use homelabs_siem_soar.Prelude.{
  ℕ, ◌+◌, ◌≡◌, ◌≤◌, refl, Bool, true, false, Option, none, some, List, [], ◌∷◌, ◌++◌, arith,
  count_by, count_by-remove_at, remove_at, ◌↔◌, get_elem?, if◌then◌else◌, inl, inr, Bool-cases,
  is_empty, trim,
}
use homelabs_siem_soar.Endpoints.Fleet.{Host, RawHost}
use homelabs_siem_soar.Endpoints.Hosts.{
  Page, Request, token_request, rotate_request, task_request, start, Outcome, succeeded,
  failed_with, load_settled, on_endpoint_event, handle_bulk_action, bulk_tick, toggle_select_all,
  toggle_select, bulk_buttons_shown, BulkAction, show_toast, BulkRun, bulk_next, bulk_tick_found,
  bulk_done, bulk_turn,
}
use homelabs_siem_soar.Endpoints.Hosts.Admin.{
  Event, load_ended, endpoint_event, filter_chosen, searched, row_toggled, all_toggled,
  selection_cleared, bulk_clicked, bulk_timer, enroll_opened, enroll_closed, form_changed,
  another_token, token_submitted, rotate_opened, rotate_cancelled, rotate_confirmed, task_chosen,
  request_ended, toast_elapsed, step, run, settle_one, settle_found, request_settled,
  handle_generate_token, handle_rotate, rotate_if, handle_dispatch, form_ready, send,
}

abbrev pub is_token : Request → Bool
is_token (token_request form) = true
is_token _ = false

-- The flag of the page counts the token requests in flight.
abbrev IsCounted : Page → Type 0
IsCounted s = count_by is_token s.in_flight ≡ (if s.is_generating_token then 1 else 0)

count_by-snoc :
    (rs : List Request) (r : Request)
    → count_by is_token (rs ++ r ∷ []) ≡ count_by is_token rs + (if is_token r then 1 else 0)
count_by-snoc [] r = omega arith
count_by-snoc (q ∷ rs) r = omega (arith, count_by-snoc rs r)

-- A page that agrees on both fields.
IsCounted-same :
    (s t : Page)
    → t.in_flight ≡ s.in_flight
    → t.is_generating_token ≡ s.is_generating_token
    → IsCounted s
    → IsCounted t
IsCounted-same s t e g h = rw (e, g) h

bulk_tick-same :
    (fails : Bool) (s : Page)
    → ((bulk_tick fails s).in_flight ≡ s.in_flight)
      × ((bulk_tick fails s).is_generating_token ≡ s.is_generating_token)
unfolding bulk_tick bulk_tick_found bulk_next bulk_done bulk_turn show_toast
bulk_tick-same fails s = found s.bulk_run
  where
    next :
        (r : BulkRun) (q : List String)
        → ((bulk_next fails r q s).in_flight ≡ s.in_flight)
          × ((bulk_next fails r q s).is_generating_token ≡ s.is_generating_token)
    next r [] = (refl, refl)
    next r (id ∷ rest) = (refl, refl)

    found :
        (o : Option BulkRun)
        → ((bulk_tick_found fails o s).in_flight ≡ s.in_flight)
          × ((bulk_tick_found fails o s).is_generating_token ≡ s.is_generating_token)
    found none = (refl, refl)
    found (some r) = next r r.queue

generate-IsCounted :
    (s : Page) → s.is_generating_token ≡ false → IsCounted s → IsCounted (handle_generate_token s)
unfolding handle_generate_token send
generate-IsCounted s g h = elim (Bool-cases (is_empty (trim s.enroll.tenant_id))) [
  | inl e ↦ rw e h
  | inr e ↦ rw e (ground (arith, count_by-snoc s.in_flight (token_request s.enroll)))
]

form_ready-idle : (s : Page) → form_ready s ≡ true → s.is_generating_token ≡ false
unfolding form_ready
form_ready-idle s h = ground arith

settle_one-IsCounted :
    (r : Request) (o : Outcome) (s : Page)
    → count_by is_token s.in_flight + (if is_token r then 1 else 0)
      ≡ (if s.is_generating_token then 1 else 0)
    → IsCounted (settle_one r o s)
unfolding settle_one show_toast
settle_one-IsCounted (token_request form) (succeeded token at) s h = ground arith
settle_one-IsCounted (token_request form) (failed_with f) s h = ground arith
settle_one-IsCounted (rotate_request host) (succeeded token at) s h = ground arith
settle_one-IsCounted (rotate_request host) (failed_with f) s h = ground arith
settle_one-IsCounted (task_request id action name) (succeeded token at) s h = ground arith
settle_one-IsCounted (task_request id action name) (failed_with f) s h = ground arith

request_settled-IsCounted :
    (i : ℕ) (o : Outcome) (s : Page) → IsCounted s → IsCounted (request_settled i o s)
unfolding request_settled settle_found
request_settled-IsCounted i o s h = found (get_elem? s.in_flight i) refl
  where
    found : (q : Option Request) → get_elem? s.in_flight i ≡ q → IsCounted (settle_found q i o s)
    found none e = h
    found (some r) e =
        settle_one-IsCounted r o (record s { in_flight = remove_at s.in_flight i })
          (omega (arith, count_by-remove_at is_token s.in_flight i e, h))

rotate-IsCounted : (s : Page) → IsCounted s → IsCounted (handle_rotate s)
unfolding handle_rotate rotate_if send
rotate-IsCounted s h = found s.rotate_confirm_host
  where
    found : (q : Option Host) → IsCounted (rotate_if q s)
    found none = h
    found (some host) = omega (arith, count_by-snoc s.in_flight (rotate_request host), h)

dispatch-IsCounted :
    (id action name : String) (s : Page)
    → IsCounted s
    → IsCounted (handle_dispatch id action name s)
unfolding handle_dispatch send
dispatch-IsCounted id action name s h = elim (Bool-cases (is_empty action)) [
  | inl e ↦ rw e h
  | inr e ↦ rw e (omega (arith, count_by-snoc s.in_flight (task_request id action name), h))
]

load-IsCounted :
    (message : Option String) (hs : List RawHost) (b : Bool) (s : Page)
    → IsCounted s
    → IsCounted (load_settled message hs b s)
unfolding load_settled
load-IsCounted message hs true s h = h
load-IsCounted message hs false s h = h

event-IsCounted :
    (b : Bool) (id : String) (s : Page) → IsCounted s → IsCounted (on_endpoint_event b id s)
unfolding on_endpoint_event show_toast
event-IsCounted true id s h = h
event-IsCounted false id s h = h

select-IsCounted : (id : String) (s : Page) → IsCounted s → IsCounted (toggle_select id s)
unfolding toggle_select
select-IsCounted id s h = h

select_all-IsCounted :
    (lower : String → String) (s : Page) → IsCounted s → IsCounted (toggle_select_all lower s)
unfolding toggle_select_all
select_all-IsCounted lower s h = h

bulk-IsCounted :
    (action : BulkAction) (s : Page) → IsCounted s → IsCounted (handle_bulk_action action s)
unfolding handle_bulk_action
bulk-IsCounted action s h = h

step-IsCounted :
    (lower : String → String) (e : Event) (s : Page) → IsCounted s → IsCounted (step lower e s)
unfolding step
step-IsCounted lower (load_ended message hs b) s h = load-IsCounted message hs b s h
step-IsCounted lower (endpoint_event b id) s h = event-IsCounted b id s h
step-IsCounted lower (filter_chosen f) s h = h
step-IsCounted lower (searched term) s h = h
step-IsCounted lower (row_toggled id) s h = select-IsCounted id s h
step-IsCounted lower all_toggled s h = select_all-IsCounted lower s h
step-IsCounted lower selection_cleared s h = elim (Bool-cases (bulk_buttons_shown s)) [
  | inl e ↦ rw e h
  | inr e ↦ rw e h
]
step-IsCounted lower (bulk_clicked action) s h = elim (Bool-cases (bulk_buttons_shown s)) [
  | inl e ↦ rw e (bulk-IsCounted action s h)
  | inr e ↦ rw e h
]
step-IsCounted lower (bulk_timer fails) s h =
    IsCounted-same s (bulk_tick fails s) (bulk_tick-same fails s).0 (bulk_tick-same fails s).1 h
step-IsCounted lower enroll_opened s h = h
step-IsCounted lower enroll_closed s h = h
step-IsCounted lower (form_changed form) s h = h
step-IsCounted lower another_token s h = h
step-IsCounted lower token_submitted s h = elim (Bool-cases (form_ready s)) [
  | inl e ↦ rw e (generate-IsCounted s (form_ready-idle s e) h)
  | inr e ↦ rw e h
]
step-IsCounted lower (rotate_opened host) s h = h
step-IsCounted lower rotate_cancelled s h = h
step-IsCounted lower rotate_confirmed s h = rotate-IsCounted s h
step-IsCounted lower (task_chosen id action name) s h = dispatch-IsCounted id action name s h
step-IsCounted lower (request_ended i o) s h = request_settled-IsCounted i o s h
step-IsCounted lower toast_elapsed s h = h

run-IsCounted :
    (lower : String → String) (es : List Event) (s : Page)
    → IsCounted s
    → IsCounted (run lower s es)
unfolding run
run-IsCounted lower [] s h = h
run-IsCounted lower (e ∷ es) s h =
    run-IsCounted lower es (step lower e s) (step-IsCounted lower e s h)

-- Whatever happens on the page, at most one token request is in flight, and one is exactly while the
-- button of the form shows the spinner.
pub one_token_request :
    (lower : String → String) (es : List Event)
    → (count_by is_token (run lower start es).in_flight ≤ 1)
      × ((run lower start es).is_generating_token ≡ true
          ↔ count_by is_token (run lower start es).in_flight ≡ 1)
unfolding start
one_token_request lower es =
    let v = run-IsCounted lower es start refl in
    (ground arith, (λ g. ground arith, λ n. ground arith))
