-- ===== src/Assets/Vulnerabilities.antt =====
-- soc-frontend/src/pages/assets/VulnerabilitiesPage.tsx: the vulnerabilities by risk, and accepting
-- a risk.
pub mod Acceptance
use Prim.Native.Nat.{◌%◌}
use Prim.Native.String.{String}
use text.Mathlib.Text.{◌==◌ as str_eq}
use homelabs_siem_soar.Prelude.{
  ℕ, ◌+◌, Bool, true, false, not, ◌&&◌, ◌==◌, Option, none, some, List, [], ◌∷◌, map, map_from,
  length, filter_by, trim, is_empty, if◌then◌else◌,
}
use homelabs_siem_soar.Prelude.Sort.{sort_desc}
use homelabs_siem_soar.Hooks.AsyncState.{
  AsyncState, Reply, ok, failed, initial, begin, settle, set_value,
}

pub data Exploitation : Type 0 where
  no_exploit cisa_kev internal_alert : Exploitation

pub data Status : Type 0 where
  open_status compensating_control patched : Status

pub data TicketStatus : Type 0 where
  ticket_open in_progress resolved no_ticket : TicketStatus

-- A vulnerability of the reply; `cvss_score` in tenths.
pub record RawVulnerability : Type 0 where
  pub id : String
  pub cve_id : String
  pub cvss_score : ℕ
  pub description : String

pub record Vulnerability : Type 0 where
  pub raw : RawVulnerability
  pub active_exploitation : Exploitation
  pub is_overdue : Bool
  pub ticket_status : TicketStatus
  pub ticket_number : ℕ
  pub status : Status
  pub combined_risk_score : ℕ

-- The enhancement of the row at a place of the reply; `risk` is the rounded product with the random
-- EPSS score that was drawn for it.
unfoldable pub enhance : (ℕ → RawVulnerability → ℕ) → ℕ → RawVulnerability → Vulnerability
enhance risk i v = record {
  raw = v;
  active_exploitation =
      if i % 8 == 0 then internal_alert else if i % 5 == 0 then cisa_kev else no_exploit;
  is_overdue = i % 6 == 0;
  ticket_status = if i % 3 == 0 then in_progress else if i % 4 == 0 then resolved else ticket_open;
  ticket_number = 1000 + i;
  status = if i % 10 == 0 then compensating_control else open_status;
  combined_risk_score = risk i v;
}

unfoldable pub loaded : (ℕ → RawVulnerability → ℕ) → List RawVulnerability → List Vulnerability
loaded risk vs = sort_desc (λ v. v.combined_risk_score) (map_from 0 (enhance risk) vs)

pub record Page : Type 0 where
  pub table : AsyncState (List Vulnerability)
  pub control_modal : Option Vulnerability  -- `controlModalVuln`
  pub justification : String  -- `controlJustification`

unfoldable pub start : Page
start = record { table = initial; control_modal = none; justification = "" }

-- `data || []`.
abbrev pub rows_of : Option (List Vulnerability) → List Vulnerability
rows_of none = []
rows_of (some vs) = vs

unfoldable pub accept_if : String → Vulnerability → Vulnerability
accept_if id v = if str_eq v.raw.id id then record v { status = compensating_control } else v

accept : Option Vulnerability → Page → Page
unfolding set_value
accept none s = s
accept (some v) s = if is_empty s.justification then s else record s {
  table = set_value (some (map (accept_if v.raw.id) (rows_of s.table.value))) s.table;
  control_modal = none;
  justification = "";
}

-- `handleAcceptRisk`.
unfoldable pub handle_accept_risk : Page → Page
unfolding accept
handle_accept_risk s = accept s.control_modal s

-- Its button is disabled while the justification is blank.
unfoldable pub accept_clicked : Page → Page
accept_clicked s = if is_empty (trim s.justification) then s else handle_accept_risk s

abbrev is_open : Status → Bool
is_open open_status = true
is_open _ = false

abbrev is_internal_alert : Exploitation → Bool
is_internal_alert internal_alert = true
is_internal_alert _ = false

unfoldable pub overdue_count : List Vulnerability → ℕ
overdue_count vs = length (filter_by (λ v. v.is_overdue && is_open v.status) vs)

unfoldable pub active_exploit_count : List Vulnerability → ℕ
active_exploit_count vs = length (filter_by (λ v. is_internal_alert v.active_exploitation) vs)

reply_of : (ℕ → RawVulnerability → ℕ) → Reply (List RawVulnerability) → Reply (List Vulnerability)
reply_of risk (ok vs) = ok (loaded risk vs)
reply_of risk (failed message) = failed message

pub data Event : Type 0 where
  executed : Event  -- the first effect, and the button `Trigger Scanners`
  replied : (ℕ → RawVulnerability → ℕ) → Reply (List RawVulnerability) → Event
  control_opened : Vulnerability → Event
  typed : String → Event
  cancelled : Event
  accepted : Event

unfoldable pub step : Event → Page → Page
unfolding reply_of accept_clicked
step executed s = record s { table = begin s.table }
step (replied risk r) s = record s { table = settle (reply_of risk r) s.table }
step (control_opened v) s = record s { control_modal = some v }
step (typed text) s = record s { justification = text }
step cancelled s = record s { control_modal = none }
step accepted s = accept_clicked s
