-- ===== src/Tests/Incidents.antt =====
-- Concrete runs of the page of active incidents.
use Prim.Native.String.{String}
use homelabs_siem_soar.Prelude.{◌≡◌, refl, false, not, if◌then◌else◌, none, some, [], ◌∷◌}
use homelabs_siem_soar.Incidents.Active.{Incident, Page, on_time, breached}
use text.Mathlib.Text.{◌==◌ as str_eq}
use homelabs_siem_soar.Prelude.{List, count_by, sum_by}
use homelabs_siem_soar.Prelude.Sort.{IsDescending}
use homelabs_siem_soar.Incidents.Active.{toggle_select}
use homelabs_siem_soar.Incidents.Active.Selection.{clicks_flip, selection}
use homelabs_siem_soar.Prelude.Members.{is_in}
use homelabs_siem_soar.Incidents.Closed
use homelabs_siem_soar.Incidents.Closed.{root_cause_counts, top_root_causes}
use homelabs_siem_soar.Incidents.Closed.Causes.{cause_counts_exact, count_of, has_cause}

abbrev leak : Incident
leak = record {
  id = "i1";
  title = "Leak";
  severity = "high";
  sla_status = breached;
  assignee = none;
}

abbrev outage : Incident
outage = record {
  id = "i2";
  title = "Outage";
  severity = "low";
  sla_status = on_time;
  assignee = some "bob";
}

abbrev triage : Page
triage = record {
  table = record { value = some (leak ∷ outage ∷ []); loading = false; error = none };
  selected_ids = [];
  show_reassign_modal = false;
  reassign_target = "";
  search_query = "";
}

abbrev phish : Closed.Incident
phish = record {
  raw = record { id = "c1"; title = "Mail"; severity = "high" };
  root_cause = "Phishing";
  detection_gap_reported = false;
  post_mortem_status = Closed.pending;
}

abbrev unclassified : Closed.Incident
unclassified = record phish { root_cause = "" }

abbrev archive : List Closed.Incident
archive = phish ∷ unclassified ∷ phish ∷ []

cause_counts_exact_example :
    (count_of "Phishing" (root_cause_counts archive)
      ≡ count_by (λ inc. str_eq inc.root_cause "Phishing") archive)
    × IsDescending (λ e. e.1) (top_root_causes archive)
    × (sum_by (λ e. e.1) (top_root_causes archive) ≡ count_by has_cause archive)
cause_counts_exact_example = cause_counts_exact archive "Phishing" refl

clicks_flip_example :
    ((id : String)
      → is_in id (selection (toggle_select "i1" triage)) ≡ (
          if str_eq "i1" id
          then not (is_in id (selection triage))
          else is_in id (selection triage)))
    × (selection (toggle_select "i1" (toggle_select "i1" triage)) ≡ selection triage)
    × (selection (toggle_select "i1" (toggle_select "i2" triage))
        ≡ selection (toggle_select "i2" (toggle_select "i1" triage)))
clicks_flip_example = clicks_flip triage "i1" "i2"
