-- ===== src/Tests/Detection.antt =====
-- Concrete runs of the pages about detection.
use Prim.Native.String.{String}
use mathlib.Core.List.{Memᴰ}
use homelabs_siem_soar.Prelude.{◌≡◌, refl, true, false, none, some, List, [], ◌∷◌, map}
use homelabs_siem_soar.Prelude.{arith, get_elem?, trim, is_empty, split_at, includes}
use homelabs_siem_soar.Detection.IocSearch
use homelabs_siem_soar.Detection.IocSearch.Kinds.{type_of_ioc-parts, type_of_parts}
use homelabs_siem_soar.Detection.IocSearch.Recent.{recent_searches_few_and_distinct, IsTidy}
use homelabs_siem_soar.Prelude.IdSet.{has}
use homelabs_siem_soar.Detection.AlertRules.{
  Rule, Page, critical, medium, rules, flip_if, perform_toggle, toggle_settled,
}
use homelabs_siem_soar.Detection.AlertRules.Guard.{clicks_keep_responses, click, bulk_disabled}
use homelabs_siem_soar.Detection.AlertRules.Rollback.{failed_toggle_undoes_other}
use homelabs_siem_soar.Hooks.AsyncState.{ok}
use homelabs_siem_soar.Detection.ThreatFeeds
use homelabs_siem_soar.Detection.ThreatFeeds.Sync.{disabled_button_is_busy, is_in_flight}

abbrev contain : Rule
contain = record {
  id = "r1";
  name = "Ransomware";
  severity = critical;
  enabled = true;
  last_triggered = none;
  is_auto_response = true;
  description = "";
  false_positive_rate = 3;
  trigger_count_30d = 8;
  dependencies = "Playbook: Auto-Containment" ∷ [];
}

abbrev watch : Rule
watch = record contain {
  id = "r2";
  name = "Login";
  severity = medium;
  is_auto_response = false;
  dependencies = [];
}

abbrev two_rules : List Rule
two_rules = contain ∷ watch ∷ []

abbrev page : Page
page = record {
  table = record { value = some two_rules; loading = false; error = none };
  selected_ids = "r1" ∷ [];
  pending_action = none;
  two_key_input = "";
  toggles = [];
  notices = [];
}

clicks_keep_responses_example : Memᴰ contain (rules (click bulk_disabled page))
clicks_keep_responses_example =
    clicks_keep_responses bulk_disabled page contain tt (Memᴰ.head refl) refl

failed_toggle_undoes_other_example :
    ((toggle_settled 1 true (perform_toggle contain (perform_toggle watch page))).table.value
      ≡ some (map (flip_if "r1") (map (flip_if "r2") two_rules)))
    × ((toggle_settled 0 false
          (toggle_settled 1 true (perform_toggle contain (perform_toggle watch page)))).table.value
        ≡ some two_rules)
    × ((toggle_settled 0 false
          (toggle_settled 1 true (perform_toggle contain (perform_toggle watch page)))).toggles
        ≡ [])
failed_toggle_undoes_other_example =
    failed_toggle_undoes_other watch contain page two_rules refl refl

abbrev stored : List String
stored = "1.1.1.1" ∷ "evil-domain.com" ∷ []

abbrev repeated : List IocSearch.Event
repeated = IocSearch.typed "evil-domain.com" ∷ IocSearch.hunt_clicked ∷ []

recent_searches_few_and_distinct_example :
    IsTidy (IocSearch.run (IocSearch.open_page (some stored)) repeated)
    × ((sought : String)
        → is_empty (trim sought) ≡ false
        → get_elem?
            (IocSearch.handle_search sought
              (IocSearch.run (IocSearch.open_page (some stored)) repeated)).recent_searches
            0
          ≡ some sought)
unfolding has
recent_searches_few_and_distinct_example =
    recent_searches_few_and_distinct stored repeated (omega arith) (refl, (refl, tt))

abbrev otx : ThreatFeeds.RawFeed
otx = record { id = "f1"; name = "AlienVault"; kind = "TAXII"; health = ThreatFeeds.healthy }

abbrev misp : ThreatFeeds.RawFeed
misp = record otx { id = "f2"; name = "MISP" }

-- Two synchronisations, of which the second one still runs.
abbrev syncing : List ThreatFeeds.Event
syncing =
    ThreatFeeds.loading_begun
    ∷ ThreatFeeds.load_ended (ok [])
    ∷ ThreatFeeds.sync_pressed otx
    ∷ ThreatFeeds.sync_replied 0 ThreatFeeds.succeeded
    ∷ ThreatFeeds.load_ended (ok [])
    ∷ ThreatFeeds.sync_pressed misp
    ∷ []

misp_is_syncing : (ThreatFeeds.run ThreatFeeds.start syncing).syncing_id ≡ some "f2"
unfolding ThreatFeeds.run ThreatFeeds.start ThreatFeeds.step
misp_is_syncing = refl

disabled_button_is_busy_example :
    is_in_flight "f2" (ThreatFeeds.run ThreatFeeds.start syncing).syncs ≡ true
disabled_button_is_busy_example = disabled_button_is_busy syncing "f2" misp_is_syncing

-- The texts of an address, of one group too few, and of an address without dots.
types_tests :
    (IocSearch.type_of_ioc "10.0.0.1" ≡ IocSearch.ip)
    × (IocSearch.type_of_ioc "10.0.1" ≡ IocSearch.domain)
    × (IocSearch.type_of_ioc "fe80::1" ≡ IocSearch.hash)
unfolding IocSearch.type_of_ioc includes
types_tests = (refl, refl, refl)

type_of_ioc-parts_example :
    IocSearch.type_of_ioc "10.0.0.1" ≡ type_of_parts ("10" ∷ "0" ∷ "0" ∷ "1" ∷ [])
unfolding split_at
type_of_ioc-parts_example = type_of_ioc-parts "10.0.0.1"
