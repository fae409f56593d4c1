-- ===== src/Endpoints/Fleet.antt =====
-- soc-frontend/src/pages/endpoints/HostManagementPage.tsx: the managed hosts, and which of them the
-- table shows under a filter tab and a search text.
pub mod Tabs
use Prim.Native.String.{String}
use text.Mathlib.Text.{◌==◌ as str_eq}
use homelabs_siem_soar.Prelude.{
  ℕ, Bool, true, false, not, ◌&&◌, ◌||◌, Option, none, some, List, [], ◌∷◌, map, length, filter_by,
  trim, includes, is_empty, text_or,
}
use homelabs_siem_soar.Prelude.Sort.{sort_desc}

pub data AgentHealth : Type 0 where
  healthy stale outdated offline : AgentHealth

pub data Criticality : Type 0 where
  tier_1 tier_2 tier_3 : Criticality

pub data HostType : Type 0 where
  paas iaas local_cf_tunnel : HostType

-- `EnhancedHost` after the defaults; `lastCheckIn` as `getTime` reads it.
pub record Host : Type 0 where
  pub id : String
  pub hostname : String
  pub os : String
  pub agent_version : String
  pub latest_version : String
  pub health : AgentHealth
  pub last_check_in : ℕ
  pub criticality : Criticality
  pub open_incidents_count : ℕ
  pub last_isolated_days_ago : Option ℕ
  pub trending_stale : Bool
  pub host_type : HostType
  pub ip_address : String
  pub region : String

-- A host of the reply.
pub record RawHost : Type 0 where
  pub id : String
  pub hostname : String
  pub os : String
  pub agent_version : String
  pub latest_version : String
  pub health : AgentHealth
  pub last_check_in : ℕ
  pub criticality : Option Criticality
  pub open_incidents_count : Option ℕ
  pub last_isolated_days_ago : Option ℕ
  pub trending_stale : Option Bool
  pub host_type : Option HostType
  pub ip_address : Option String
  pub region : Option String

-- `value || d`, on a value without falsy forms besides `undefined` and `d` itself.
abbrev or_else {ℓ} : {A : Type ℓ} → Option A → A → A
or_else none d = d
or_else (some a) d = a

unfoldable pub enhance : RawHost → Host
enhance h = record {
  id = h.id;
  hostname = h.hostname;
  os = h.os;
  agent_version = h.agent_version;
  latest_version = h.latest_version;
  health = h.health;
  last_check_in = h.last_check_in;
  criticality = or_else h.criticality tier_3;
  open_incidents_count = or_else h.open_incidents_count 0;
  last_isolated_days_ago = h.last_isolated_days_ago;
  trending_stale = or_else h.trending_stale false;
  host_type = or_else h.host_type iaas;
  ip_address = text_or h.ip_address "Dynamic Edge";
  region = text_or h.region "local";
}

-- What the page loads: the hosts with their defaults, the latest check-in first.
unfoldable pub loaded : List RawHost → List Host
loaded hs = sort_desc (λ h. h.last_check_in) (map enhance hs)

pub data ViewFilter : Type 0 where
  all_fleet out_of_compliance tier_1_only paas_only iaas_only tunnel_only : ViewFilter

abbrev is_stale : AgentHealth → Bool
is_stale stale = true
is_stale _ = false

abbrev is_tier_1 : Criticality → Bool
is_tier_1 tier_1 = true
is_tier_1 _ = false

abbrev is_type : HostType → HostType → Bool
is_type paas paas = true
is_type iaas iaas = true
is_type local_cf_tunnel local_cf_tunnel = true
is_type _ _ = false

pub is_out_of_compliance : Host → Bool
is_out_of_compliance h = not (str_eq h.agent_version h.latest_version) || is_stale h.health

unfoldable pub matches_filter : ViewFilter → Host → Bool
unfolding is_out_of_compliance
matches_filter all_fleet h = true
matches_filter out_of_compliance h = is_out_of_compliance h
matches_filter tier_1_only h = is_tier_1 h.criticality
matches_filter paas_only h = is_type h.host_type paas
matches_filter iaas_only h = is_type h.host_type iaas
matches_filter tunnel_only h = is_type h.host_type local_cf_tunnel

out_of_compliance_count : List Host → ℕ
out_of_compliance_count hs = length (filter_by is_out_of_compliance hs)

tier_1_count : List Host → ℕ
tier_1_count hs = length (filter_by (λ h. is_tier_1 h.criticality) hs)

-- The `count` of each filter pill.
unfoldable pub tab_count : ViewFilter → List Host → ℕ
unfolding out_of_compliance_count tier_1_count
tab_count all_fleet hs = length hs
tab_count out_of_compliance hs = out_of_compliance_count hs
tab_count tier_1_only hs = tier_1_count hs
tab_count paas_only hs = length (filter_by (λ h. is_type h.host_type paas) hs)
tab_count iaas_only hs = length (filter_by (λ h. is_type h.host_type iaas) hs)
tab_count tunnel_only hs = length (filter_by (λ h. is_type h.host_type local_cf_tunnel) hs)

-- `lower` is `toLowerCase`, whose tables are Unicode's.
module _ (lower : String → String) where
  unfoldable pub matches_search : String → Host → Bool
  matches_search term h =
      let query = trim (lower term) in
      is_empty query
      || includes (lower h.hostname) query
      || includes (lower h.id) query
      || includes (lower h.os) query
      || includes h.ip_address query
      || includes (lower h.region) query

  -- `filteredData`.
  unfoldable pub filtered : ViewFilter → String → Option (List Host) → List Host
  unfolding matches_filter matches_search
  filtered view term none = []
  filtered view term (some hs) = filter_by (λ h. matches_filter view h && matches_search term h) hs
