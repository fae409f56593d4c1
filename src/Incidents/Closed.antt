-- ===== src/Incidents/Closed.antt =====
-- soc-frontend/src/pages/incidents/ClosedIncidentsPage.tsx: the archive of incidents, the counts of
-- their root causes, and the two actions on them. `to_lower` stands for `toLowerCase`.
pub mod Causes
pub mod Reviews
use Prim.Native.Nat.{◌%◌}
use Prim.Native.String.{String}
use text.Mathlib.Text.{◌==◌ as str_eq}
use homelabs_siem_soar.Prelude.{
  ℕ, zero, suc, ◌+◌, Bool, true, false, ◌||◌, ◌==◌, Option, none, some, List, [], ◌∷◌, map,
  map_from, is_empty, if◌then◌else◌,
}
use homelabs_siem_soar.Prelude.Sort.{sort_desc}
use homelabs_siem_soar.Hooks.AsyncState.{
  AsyncState, Reply, ok, failed, initial, begin, settle, set_value,
}

pub data PostMortem : Type 0 where
  scheduled pending completed not_required : PostMortem

-- An incident of the reply.
pub record RawIncident : Type 0 where
  pub id : String
  pub title : String
  pub severity : String

-- `EnhancedClosedIncident`.
pub record Incident : Type 0 where
  pub raw : RawIncident
  pub root_cause : String
  pub detection_gap_reported : Bool
  pub post_mortem_status : PostMortem

-- `rootCauses[i % rootCauses.length]`.
root_cause_of : ℕ → String
root_cause_of i =
    if i % 5 == 0
    then "Phishing"
    else if i % 5 == 1
    then "Misconfiguration"
    else if i % 5 == 2
    then "Insider Threat"
    else if i % 5 == 3
    then "Third-Party"
    else "False Positive"

-- The test of the load for a severity that wants a review.
abbrev wants_review : String → Bool
wants_review severity = str_eq severity "critical" || str_eq severity "high"

abbrev review_of : ℕ → PostMortem
review_of i = if i % 3 == 0 then completed else if i % 2 == 0 then scheduled else pending

unfoldable pub enhance : ℕ → RawIncident → Incident
unfolding root_cause_of
enhance i inc = record {
  raw = inc;
  root_cause = root_cause_of i;
  detection_gap_reported = i % 5 == 0;
  post_mortem_status = if wants_review inc.severity then review_of i else not_required;
}

unfoldable pub loaded : Reply (List RawIncident) → Reply (List Incident)
unfolding enhance
loaded (ok incs) = ok (map_from 0 enhance incs)
loaded (failed message) = failed message

-- The test of the table for a critical incident.
abbrev pub is_critical : (String → String) → Incident → Bool
is_critical to_lower inc = str_eq (to_lower inc.raw.severity) "critical"

-- The object of counts, in the order in which its keys came.
abbrev pub Counts : Type 0
Counts = List (String × ℕ)

-- `acc[cause] = (acc[cause] || 0) + 1`.
unfoldable pub count_cause : String → Counts → Counts
count_cause cause [] = (cause, 1) ∷ []
count_cause cause ((c, n) ∷ counts) =
    if str_eq c cause then (c, n + 1) ∷ counts else (c, n) ∷ count_cause cause counts

unfoldable pub count_causes : Counts → List Incident → Counts
unfolding count_cause
count_causes acc [] = acc
count_causes acc (inc ∷ incs) =
    count_causes (if is_empty inc.root_cause then acc else count_cause inc.root_cause acc) incs

-- `rootCauseCounts`, and its entries with the greatest count first.
unfoldable pub root_cause_counts : List Incident → Counts
unfolding count_causes
root_cause_counts incs = count_causes [] incs

unfoldable pub top_root_causes : List Incident → Counts
unfolding root_cause_counts
top_root_causes incs = sort_desc (λ entry. entry.1) (root_cause_counts incs)

pub record Page : Type 0 where
  pub table : AsyncState (List Incident)
  pub gap_modal_open : Option String
  pub schedule_modal_open : Option String

unfoldable pub start : Page
unfolding initial
start = record { table = initial; gap_modal_open = none; schedule_modal_open = none }

-- `data || []`.
abbrev pub rows_of : Option (List Incident) → List Incident
rows_of none = []
rows_of (some incs) = incs

abbrev pub rows : Page → List Incident
rows s = rows_of s.table.value

report_if : String → Incident → Incident
report_if id inc =
    if str_eq inc.raw.id id then record inc { detection_gap_reported = true } else inc

handle_report_gap : String → Page → Page
unfolding report_if set_value
handle_report_gap id s = record s {
  table = set_value (some (map (report_if id) (rows s))) s.table;
  gap_modal_open = none;
}

schedule_if : String → Incident → Incident
schedule_if id inc =
    if str_eq inc.raw.id id then record inc { post_mortem_status = scheduled } else inc

handle_schedule_review : String → Page → Page
unfolding schedule_if set_value
handle_schedule_review id s = record s {
  table = set_value (some (map (schedule_if id) (rows s))) s.table;
  schedule_modal_open = none;
}

abbrev pub is_pending : PostMortem → Bool
is_pending pending = true
is_pending _ = false

-- The button of a row, which only a pending review has.
unfoldable pub schedule_clicked : Incident → Page → Page
schedule_clicked inc s =
    if is_pending inc.post_mortem_status
    then record s { schedule_modal_open = some inc.raw.id }
    else s

-- The button of a row whose gap has not been reported.
unfoldable gap_clicked : Incident → Page → Page
gap_clicked inc s =
    if inc.detection_gap_reported then s else record s { gap_modal_open = some inc.raw.id }

-- The submit buttons of the modals, which hand over the id that opened them.
unfoldable gap_submitted : Page → Page
unfolding handle_report_gap
gap_submitted s = elim s.gap_modal_open [ none ↦ s | some id ↦ handle_report_gap id s ]

unfoldable schedule_submitted : Page → Page
unfolding handle_schedule_review
schedule_submitted s = elim s.schedule_modal_open [
  | none ↦ s
  | some id ↦ handle_schedule_review id s
]
