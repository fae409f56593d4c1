-- ===== src/Tests/Endpoints.antt =====
-- Concrete runs of the pages about endpoints.
use Prim.Native.String.{String, ◌++◌ as str_append}
use text.Mathlib.Text.{◌==◌ as str_eq}
use mathlib.Core.List.{Memᴰ}
use homelabs_siem_soar.Prelude.{
  arith, All, ◌+◌, ◌≤◌, ◌≡◌, ◌↔◌, refl, Bool, true, false, not, none, some, List, [], ◌∷◌, map,
  length, count_by, trim, trim_start, trim_end,
}
use homelabs_siem_soar.Endpoints.Isolation
use homelabs_siem_soar.Endpoints.Isolation.Confirmation.{execute_exact, IsOrdered, request}
use homelabs_siem_soar.Endpoints.Fleet
use homelabs_siem_soar.Endpoints.Hosts
use homelabs_siem_soar.Endpoints.Hosts.Accounting.{bulk_progress_accounts, ticks}
use homelabs_siem_soar.Endpoints.Hosts.BulkUpdate.{bulk_update_keeps_last}
use homelabs_siem_soar.Endpoints.Hosts.Admin
use homelabs_siem_soar.Endpoints.Hosts.Admin.Tokens.{one_token_request, is_token}
use homelabs_siem_soar.Endpoints.Edr.{hosts_of, shown_hosts}
use homelabs_siem_soar.Endpoints.Edr.HostsInput.{comma_is_swallowed, IsClean}

abbrev db : Isolation.Host
db = record {
  id = "h1";
  hostname = "db-1";
  ip_address = "10.0.0.5";
  is_isolated = false;
  ai_recommended = true;
  isolation_history_count = 2;
  services = "PostgreSQL" ∷ [];
  auto_release_at = none;
}

abbrev web : Isolation.Host
web = record db { id = "h2"; hostname = "web-1"; is_isolated = true }

abbrev isolating : List Isolation.Event
isolating =
    Isolation.opened Isolation.isolate db
    ∷ Isolation.hours_chosen 4
    ∷ Isolation.typed "db-1"
    ∷ Isolation.execute_clicked
    ∷ Isolation.ended 0 true
    ∷ []

isolating_tests :
    (Isolation.run Isolation.start isolating).posted ≡ Isolation.post_isolate "h1" 4 ∷ []
unfolding Isolation.run Isolation.start Isolation.post_of
isolating_tests = refl

execute_exact_example :
    All (IsOrdered (λ e. Memᴰ e isolating)) (Isolation.run Isolation.start isolating).posted
    × ((Isolation.run (Isolation.run Isolation.start isolating) (
          Isolation.opened Isolation.release web
          ∷ Isolation.hours_chosen 0
          ∷ Isolation.typed "web-1"
          ∷ Isolation.execute_clicked
          ∷ [])).posted
        ≡ Isolation.post_release "h2" ∷ (Isolation.run Isolation.start isolating).posted)
unfolding request
execute_exact_example = execute_exact isolating Isolation.release web 0 "web-1"

abbrev spoke : Fleet.Host
spoke = record {
  id = "e1";
  hostname = "edge-1";
  os = "Linux";
  agent_version = "1.0";
  latest_version = "1.1";
  health = Fleet.healthy;
  last_check_in = 50;
  criticality = Fleet.tier_1;
  open_incidents_count = 0;
  last_isolated_days_ago = none;
  trending_stale = false;
  host_type = Fleet.iaas;
  ip_address = "10.1.0.1";
  region = "local";
}

abbrev spoke_2 : Fleet.Host
spoke_2 = record spoke { id = "e2"; hostname = "edge-2"; health = Fleet.stale }

abbrev fleet : List Fleet.Host
fleet = spoke ∷ spoke_2 ∷ []

abbrev as_typed : String → String
as_typed s = s

abbrev both_selected : Hosts.Page
both_selected = record {
  table = record { value = some fleet; loading = false; error = none };
  selected_ids = "e1" ∷ "e2" ∷ [];
  bulk_action = none;
  bulk_progress = none;
  bulk_run = none;
  view_filter = Fleet.all_fleet;
  search_term = "";
  is_enroll_modal_open = false;
  enroll = record {
    tenant_id = "acme-corp";
    expires_in = 900;
    max_use = 1;
    endpoint_type = Fleet.iaas;
  };
  is_generating_token = false;
  generated_token = none;
  toast = none;
  rotate_confirm_host = none;
  in_flight = [];
}

bulk_progress_accounts_example :
    ((ticks
        (Hosts.handle_bulk_action Hosts.restart both_selected)
        (false ∷ true ∷ [])).bulk_progress
      ≡ some (record { total = 2; completed = 1; failures = 1 }))
    × (count_by not (false ∷ true ∷ []) + count_by (λ b. b) (false ∷ true ∷ []) ≡ 2)
    × (length (false ∷ true ∷ []) ≡ 2
        → (c : Bool)
        → ((Hosts.bulk_tick c (
              ticks
                (Hosts.handle_bulk_action Hosts.restart both_selected)
                (false ∷ true ∷ []))).selected_ids
            ≡ [])
          × ((Hosts.bulk_tick c (
                ticks
                  (Hosts.handle_bulk_action Hosts.restart both_selected)
                  (false ∷ true ∷ []))).bulk_run
              ≡ none)
          × ((Hosts.bulk_tick c (
                ticks
                  (Hosts.handle_bulk_action Hosts.restart both_selected)
                  (false ∷ true ∷ []))).bulk_progress
              ≡ none))
bulk_progress_accounts_example =
    bulk_progress_accounts Hosts.restart both_selected (false ∷ true ∷ []) (omega arith)

bulk_update_keeps_last_example :
    ((ticks (Hosts.handle_bulk_action Hosts.update both_selected) (false ∷ false ∷ [])).table.value
      ≡ some (map (Hosts.to_latest "e2") fleet))
    × ((h : Fleet.Host) → (str_eq h.id "e2") ≡ false → Hosts.to_latest "e2" h ≡ h)
bulk_update_keeps_last_example =
    bulk_update_keeps_last both_selected fleet ("e1" ∷ []) "e2" (false ∷ false ∷ []) refl refl refl

abbrev double_submit : List Admin.Event
double_submit = Admin.enroll_opened ∷ Admin.token_submitted ∷ Admin.token_submitted ∷ []

one_token_request_example :
    (count_by is_token (Admin.run as_typed Hosts.start double_submit).in_flight ≤ 1)
    × ((Admin.run as_typed Hosts.start double_submit).is_generating_token ≡ true
        ↔ count_by is_token (Admin.run as_typed Hosts.start double_submit).in_flight ≡ 1)
one_token_request_example = one_token_request as_typed double_submit

host_a-IsClean : IsClean "host-a"
unfolding trim trim_start trim_end
host_a-IsClean = record { not_empty = refl; no_comma = refl; trimmed = refl }

host_b-IsClean : IsClean "host-b"
unfolding trim trim_start trim_end
host_b-IsClean = record { not_empty = refl; no_comma = refl; trimmed = refl }

abbrev two_hosts : List String
two_hosts = "host-a" ∷ "host-b" ∷ []

comma_is_swallowed_example :
    (hosts_of (shown_hosts two_hosts) ≡ two_hosts)
    × (hosts_of (str_append (shown_hosts two_hosts) ",") ≡ two_hosts)
    × (shown_hosts (hosts_of (str_append (shown_hosts two_hosts) ",")) ≡ shown_hosts two_hosts)
comma_is_swallowed_example = comma_is_swallowed two_hosts (host_a-IsClean, (host_b-IsClean, tt))
