-- ===== src/Endpoints/Isolation/View.antt =====
-- What the isolation page renders.
use Prim.Native.String.{String}
use homelabs_siem_soar.Prelude.{
  ℕ, Bool, true, false, not, Option, none, some, List, [], map, filter_by, length, ltb, is_empty,
  if◌then◌else◌,
}
use homelabs_siem_soar.Hooks.AsyncState.{skeleton, failure, content, screen}
use homelabs_siem_soar.Endpoints.Isolation.{
  Host, Kind, isolate, release, Pending, Page, can_execute,
}

pub record Row : Type 0 where
  pub hostname : String
  pub ip_address : String
  pub badge : String
  pub auto_release : Option String
  pub history : ℕ
  pub button : Kind

-- `r.isIsolated && r.autoReleaseAt`.
release_note : Bool → Option String → Option String
release_note false at = none
release_note true none = none
release_note true (some at) = if is_empty at then none else some at

unfoldable pub row_of : Host → Row
unfolding release_note
row_of h = record {
  hostname = h.hostname;
  ip_address = h.ip_address;
  badge = if h.is_isolated then "ISOLATED" else "CONNECTED";
  auto_release = release_note h.is_isolated h.auto_release_at;
  history = h.isolation_history_count;
  button = if h.is_isolated then release else isolate;
}

-- The dialog of a pending action; only an isolation shows the services and the choice of hours.
pub record Dialog : Type 0 where
  pub title : String
  pub hostname : String
  pub ip_address : String
  pub services : Option (List String)
  pub hours : Option ℕ
  pub input : String
  pub execute_disabled : Bool

dialog_for : Pending → ℕ → String → Dialog
unfolding can_execute
dialog_for p hours input = elim p.kind [
  | isolate ↦ record {
    title = "Emergency Isolation";
    hostname = p.host.hostname;
    ip_address = p.host.ip_address;
    services = some p.host.services;
    hours = some hours;
    input = input;
    execute_disabled = not (can_execute (some p) input);
  }
  | release ↦ record {
    title = "Release Isolation";
    hostname = p.host.hostname;
    ip_address = p.host.ip_address;
    services = none;
    hours = none;
    input = input;
    execute_disabled = not (can_execute (some p) input);
  }
]

unfoldable pub dialog : Option Pending → ℕ → String → Option Dialog
unfolding dialog_for
dialog none hours input = none
dialog (some p) hours input = some (dialog_for p hours input)

pub record Content : Type 0 where
  pub warning : Option ℕ  -- the number in the banner of isolated hosts
  pub recommended : List String  -- the hostnames on the buttons of the panel
  pub rows : List Row
  pub modal : Option Dialog
  pub tasks : Option String  -- the host of the checklist

abbrev pub hosts : Option (List Host) → List Host
hosts none = []
hosts (some hs) = hs

unfoldable pub isolated_count : Option (List Host) → ℕ
isolated_count v = length (filter_by (λ h. h.is_isolated) (hosts v))

unfoldable pub content_of : Page → Content
unfolding isolated_count row_of dialog
content_of s = record {
  warning =
      if ltb 0 (isolated_count s.table.value) then some (isolated_count s.table.value) else none;
  recommended = map (λ h. h.hostname) (filter_by (λ h. h.ai_recommended) (hosts s.table.value));
  rows = map row_of (hosts s.table.value);
  modal = dialog s.pending_action s.auto_release_hours s.two_key_input;
  tasks = elim s.checklist [ none ↦ none | some h ↦ some h.hostname ];
}

-- The two early returns, and then the page.
pub data View : Type 0 where
  loading : View
  failed : String → View
  page : Content → View

unfoldable pub view : Page → View
unfolding content_of
view s = elim (screen s.table) [
  | skeleton ↦ loading
  | failure message ↦ failed message
  | content ↦ page (content_of s)
]
