-- ===== src/Tests/Feeds.antt =====
-- Concrete runs of the feeds of the overview page.
use homelabs_siem_soar.Prelude.{
  ◌≡◌, ◌≤◌, ◌+◌, refl, true, false, none, some, [], ◌∷◌, List, length, take, map, arith,
}
use homelabs_siem_soar.Prelude.Window.{window}
use homelabs_siem_soar.AgentOps.TriageFeed
use homelabs_siem_soar.AgentOps.TriageFeed.{
  AgentEvent, history, live, mount, run, step, pause_clicked, message, socket_closed, timer_fired,
  tick,
}
use homelabs_siem_soar.AgentOps.TriageFeed.Shown.{feed_is_window, arrivals}
use homelabs_siem_soar.AgentOps.TriageFeed.Connections.{connections_grow}
use homelabs_siem_soar.AgentOps.Resilience
use homelabs_siem_soar.AgentOps.Resilience.Live.{live_events_update, shown_by, latest, is_measured}
use homelabs_siem_soar.Dashboards.Overview
use homelabs_siem_soar.Dashboards.Overview.Activities.{activities_are_latest, recorded}

abbrev triaged : AgentEvent
triaged = record {
  correlation_id = "c1";
  node = TriageFeed.llm_triage;
  status = TriageFeed.completed;
  provider = none;
  summary = none;
}

abbrev ingested : AgentEvent
ingested = record triaged { correlation_id = "c0" }

-- A pause and its end; both old sockets come back beside the new one, so one event comes three times.
-- The history that the third one sends takes the place of the first event, which was shown.
abbrev paused_twice : List TriageFeed.Event
paused_twice =
    pause_clicked
    ∷ pause_clicked
    ∷ socket_closed 0
    ∷ socket_closed 0
    ∷ timer_fired
    ∷ timer_fired
    ∷ message 0 (live triaged)
    ∷ tick
    ∷ message 1 (live triaged)
    ∷ message 2 (history (ingested ∷ []))
    ∷ message 2 (live triaged)
    ∷ []

history_replaces : arrivals [] mount paused_twice ≡ ingested ∷ triaged ∷ triaged ∷ []
unfolding arrivals mount step
history_replaces = refl

is_mounted : (run mount paused_twice).is_mounted ≡ true
unfolding run mount
is_mounted = refl

is_running : (run mount paused_twice).is_paused ≡ false
unfolding run mount
is_running = refl

feed_is_window_example :
    ((step tick (run mount paused_twice)).events ≡ window 500 (arrivals [] mount paused_twice))
    × (length (step tick (run mount paused_twice)).events ≤ 500)
    × ((step tick (run mount paused_twice)).events_queue ≡ [])
feed_is_window_example =
    feed_is_window paused_twice
      (tt, (tt, (tt, (tt, (tt, (tt, (tt, (tt, (tt, (omega arith, (tt, tt))))))))))) is_mounted
      is_running

connections_grow_example :
    length (run mount paused_twice).sockets + (run mount paused_twice).timers ≡ 3
connections_grow_example = connections_grow paused_twice

abbrev phish : Overview.NewAlert
phish = record { id = some "a1"; kind = some "Phishing"; severity = some 1 }

abbrev same_alert_twice : List Overview.Event
same_alert_twice = Overview.alert_came "10:00" phish ∷ Overview.alert_came "10:01" phish ∷ []

activities_are_latest_example :
    ((Overview.run Overview.start same_alert_twice).activities
      ≡ take 20 (recorded [] same_alert_twice))
    × (length (Overview.run Overview.start same_alert_twice).activities ≤ 20)
activities_are_latest_example = activities_are_latest same_alert_twice

abbrev slow_triage : Resilience.LiveEvent
slow_triage = record {
  node = some "LLMTriage";
  latency_ms = some 1500;
  timestamp = "10:00";
  status = "FALLBACK_DETERMINISTIC_RULE_TRIGGERED";
  fallback_triggered = true;
}

abbrev panel : Resilience.Panel
panel = record {
  data_ = Resilience.mock_initial "09:00";
  connected = true;
  ws_ref = 0;
  fresh = 1;
  sockets = record { number = 0; is_closing = false } ∷ [];
  timers = 0;
}

live_events_update_example :
    ((Resilience.run panel (Resilience.message 0 (Resilience.live slow_triage) ∷ [])).data_.nodes
      ≡ map
          (λ n. shown_by (latest none n.name (slow_triage ∷ [])) n)
          (Resilience.mock_initial "09:00").nodes)
    × ((Resilience.run panel
          (Resilience.message 0 (Resilience.live slow_triage) ∷ [])).data_.total_processed
        ≡ 4822)
    × ((Resilience.run panel
          (Resilience.message 0 (Resilience.live slow_triage) ∷ [])).data_.fallback_total
        ≡ 91)
unfolding is_measured
live_events_update_example =
    live_events_update panel 0 (record { number = 0; is_closing = false }) (slow_triage ∷ []) refl
      refl
