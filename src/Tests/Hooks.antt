-- ===== src/Tests/Hooks.antt =====
-- Concrete runs of the shared hooks.
use homelabs_siem_soar.Prelude.{
  ℕ, ◌+◌, ◌≤◌, ◌≡◌, refl, false, none, some, List, [], ◌∷◌, ◌++◌, All, length, count_by,
}
use homelabs_siem_soar.Hooks.AsyncState.{
  Reply, ok, failed, Call, begun, settled, screen, initial, run_calls,
}
use homelabs_siem_soar.Hooks.AsyncState
use homelabs_siem_soar.Hooks.AsyncState.Screens.{screen-run}
use homelabs_siem_soar.Hooks.Polling
use homelabs_siem_soar.Hooks.Polling.Safety.{one_poll_at_a_time, is_active, expected}
use homelabs_siem_soar.Hooks.Polling.Silence.{silent_after_unmount, SameTraffic}
use homelabs_siem_soar.Hooks.Stream
use homelabs_siem_soar.Hooks.Stream.Backoff.{IsUp, rounds}
use homelabs_siem_soar.Hooks.Stream.Teardown.{reconnects_after_unmount}
use homelabs_siem_soar.Hooks.LogStream
use homelabs_siem_soar.Hooks.LogStream.Ring.{log_is_window, received}
use homelabs_siem_soar.Prelude.Window.{window}

abbrev refreshes : List (Reply ℕ)
refreshes = failed none ∷ ok 7 ∷ []

screen-run_example :
    screen (AsyncState.run initial (refreshes ++ failed (some "Network Error") ∷ []))
    ≡ AsyncState.content
screen-run_example = screen-run refreshes (failed (some "Network Error"))

abbrev polls : List Polling.Event
polls = Polling.mounted ∷ Polling.settled 0 Polling.arrived ∷ Polling.fired 0 ∷ Polling.changed ∷ []

one_poll_at_a_time_example :
    (count_by is_active (Polling.run Polling.start polls).requests
        + length (Polling.run Polling.start polls).timers
      ≡ expected (Polling.run Polling.start polls).live)
    × All
        (λ t. (Polling.run Polling.start polls).live ≡ some t)
        (Polling.run Polling.start polls).timers
one_poll_at_a_time_example = one_poll_at_a_time polls

abbrev late_answers : List Polling.Event
late_answers = Polling.settled 0 Polling.refused ∷ Polling.fired 0 ∷ []

silent_after_unmount_example :
    SameTraffic
      (Polling.unmount (Polling.run Polling.start polls))
      (Polling.run (Polling.unmount (Polling.run Polling.start polls)) late_answers)
silent_after_unmount_example = silent_after_unmount polls late_answers (refl, (refl, tt))

abbrev socket : Stream.Socket
socket = record { number = 1; owner = 0; ready = Stream.connecting }

-- A hook of instance 0 with one socket.
abbrev mounted_stream : Stream.Stream
mounted_stream = record {
  live = some 0;
  fresh = 2;
  is_connected = false;
  ws_ref = some 1;
  retry_count = 2;
  sockets = socket ∷ [];
  timers = [];
}

abbrev mounted_stream-IsUp : IsUp 0 mounted_stream
mounted_stream-IsUp = record { socket = socket; only = refl; owned = refl; idle = refl }

reconnects_after_unmount_example :
    ((Stream.run (Stream.unmount mounted_stream) (rounds 5)).live ≡ none)
    × (length (Stream.run (Stream.unmount mounted_stream) (rounds 5)).sockets ≡ 1)
reconnects_after_unmount_example =
    reconnects_after_unmount 0 5 mounted_stream refl mounted_stream-IsUp

abbrev visits : List LogStream.Event
visits =
    LogStream.shown (some "inv-1")
    ∷ LogStream.socket_opened 0
    ∷ LogStream.message 0 "first"
    ∷ LogStream.message 0 "second"
    ∷ []

log_is_window_example :
    ((LogStream.run LogStream.start visits).logs
      ≡ window LogStream.ceiling (received LogStream.start visits))
    × (length (LogStream.run LogStream.start visits).logs ≤ LogStream.ceiling)
log_is_window_example = log_is_window visits
