-- ===== src/Investigations/CommandCenter.antt =====
-- soc-frontend/src/features/investigations/ui/CommandCenter.tsx: the feed of alerts, the metrics that
-- are polled, and the engine that the agent events name.
pub mod Feed
pub mod Engine
use Prim.Native.String.{String}
use text.Mathlib.Text.{◌==◌ as str_eq}
use homelabs_siem_soar.Prelude.{
  ℕ, ◌+◌, ◌-◌, ◌*◌, Bool, true, false, not, Option, none, some, List, [], ◌∷◌, ◌++◌, any, filter_by,
  ltb, leb, is_empty, if◌then◌else◌,
}
use homelabs_siem_soar.Prelude.Sort.{sort_desc}
use homelabs_siem_soar.Investigations.Types.{Alert}

-- `prev.some(a => a.id === id)`.
abbrev pub is_listed : String → List Alert → Bool
is_listed id alerts = any (λ a. str_eq a.id id) alerts

-- The first list: a body that is no array leaves the alerts as they are.
on_initial : Option (List Alert) → List Alert → List Alert
on_initial none prev = prev
on_initial (some alerts) prev = alerts

-- A message of the alert stream: null, or an alert whose id may be empty.
unfoldable pub on_alert : Option Alert → List Alert → List Alert
on_alert none prev = prev
on_alert (some a) prev =
    if is_empty a.id
    then prev
    else if is_listed a.id prev
    then prev
    else sort_desc (λ x. x.severity) (a ∷ prev)

-- The end of `handleAcknowledge`: the request succeeded, or it failed.
on_acknowledged : Bool → String → List Alert → List Alert
on_acknowledged false id prev = prev
on_acknowledged true id prev = filter_by (λ a. not (str_eq a.id id)) prev

abbrev pub is_critical : Alert → Bool
is_critical a = leb a.severity 2

pub data FeedEvent : Type 0 where
  loaded : Option (List Alert) → FeedEvent
  streamed : Option Alert → FeedEvent
  acknowledged : Bool → String → FeedEvent

unfoldable pub feed_step : FeedEvent → List Alert → List Alert
unfolding on_initial on_alert on_acknowledged
feed_step (loaded r) alerts = on_initial r alerts
feed_step (streamed a) alerts = on_alert a alerts
feed_step (acknowledged success id) alerts = on_acknowledged success id alerts

unfoldable pub feed : List Alert → List FeedEvent → List Alert
unfolding feed_step
feed alerts [] = alerts
feed alerts (e ∷ es) = feed (feed_step e alerts) es

-- An event of the agent stream, with the time at which the page received it.
pub record AgentEvent : Type 0 where
  pub fallback_triggered : Bool
  pub provider : String
  pub received_at : ℕ

abbrev pub staleness_window_ms : ℕ
staleness_window_ms = 10 * 60 * 1000

-- `agentEvents.slice().reverse().find(e => e.fallbackTriggered)`: the last one in the list.
unfoldable pub latest_fallback : List AgentEvent → Option AgentEvent
latest_fallback [] = none
latest_fallback (e ∷ es) = elim (latest_fallback es) [
  | none ↦ if e.fallback_triggered then some e else none
  | some later ↦ some later
]

pub record EngineState : Type 0 where
  pub is_degraded : Bool
  pub fallback_rule_triggered : Bool
  pub active_provider : String

abbrev pub baseline : EngineState
baseline = record {
  is_degraded = false;
  fallback_rule_triggered = false;
  active_provider = "openai/gpt-4o";
}

unfoldable pub engine_of : ℕ → Option AgentEvent → EngineState
engine_of now none = baseline
engine_of now (some e) =
    if ltb staleness_window_ms (now - e.received_at)
    then baseline
    else let static = str_eq e.provider "static_ruleset" in
      record {
        is_degraded = not static;
        fallback_rule_triggered = static;
        active_provider = if static then "Static Ruleset" else e.provider;
      }

unfoldable pub engine : ℕ → List AgentEvent → EngineState
unfolding engine_of latest_fallback
engine now events = engine_of now (latest_fallback events)
