-- ===== src/AgentOps/TriageFeed/Shown.antt =====
-- Which events the feed shows.
use homelabs_siem_soar.Prelude.{
  ℕ, zero, suc, ◌≤◌, ◌≡◌, refl, ap, sym, ◌∙◌, true, false, not, ◌&&◌, Option, none, some, List, [],
  ◌∷◌, ◌++◌, arith, length, get_elem?, Bool-cases, inl, inr, if◌then◌else◌, All,
}
use mathlib.Core.List.{append_assoc, append-nil}
use homelabs_siem_soar.Prelude.Window.{window, window-append, length-window, window_short}
use homelabs_siem_soar.AgentOps.TriageFeed.{
  Feed, Frame, history, live, other, Socket, AgentEvent, Event, pause_clicked, unmounted,
  filter_chosen, message, socket_closed, timer_fired, tick, mount, connect, clean_up, toggle_pause,
  unmount, receive, handle_frame, close_found, fire, on_tick, flush, step, run, most_events,
}

-- A history has no more events than the feed keeps. The server sends it on every connection.
abbrev IsShort : Event → Type 0
IsShort (message i (history events)) = length events ≤ most_events
IsShort _ = Unit {0}

-- What has come after a message on a socket that is not closing: a live event comes last, and a history
-- takes the place of all but the events that wait.
abbrev with_frame : Option Socket → Frame → List AgentEvent → List AgentEvent → List AgentEvent
with_frame (some w) (live e) waiting all = if w.is_closing then all else all ++ e ∷ []
with_frame (some w) (history events) waiting all = if w.is_closing then all else events ++ waiting
with_frame _ _ waiting all = all

-- What has come after some events, if some had come before.
unfoldable pub arrivals : List AgentEvent → Feed → List Event → List AgentEvent
arrivals all s [] = all
arrivals all s (message i f ∷ es) =
    arrivals (with_frame (get_elem? s.sockets i) f s.events_queue all) (step (message i f) s) es
arrivals all s (e ∷ es) = arrivals all (step e s) es

-- The feed holds a window on all events, shown or queued, and shows no more than fits.
abbrev Holds : List AgentEvent → Feed → Type 0
Holds all s =
    (window most_events (s.events ++ s.events_queue) ≡ window most_events all)
    × (length s.events ≤ most_events)

live-Holds :
    (all : List AgentEvent) (e : AgentEvent) (s : Feed)
    → Holds all s
    → Holds (all ++ e ∷ []) (handle_frame (live e) s)
unfolding handle_frame
live-Holds all e s (w, l) = (
  ap (λ (u : List AgentEvent). window most_events u)
        (sym (append_assoc s.events s.events_queue (e ∷ [])))
      ∙ sym (window-append most_events (s.events ++ s.events_queue) (e ∷ []))
      ∙ ap (λ (u : List AgentEvent). window most_events (u ++ e ∷ [])) w
      ∙ window-append most_events all (e ∷ []),
  l,
)

tick-Holds : (all : List AgentEvent) (s : Feed) → Holds all s → Holds all (on_tick s)
unfolding on_tick flush
tick-Holds all s h = elim (Bool-cases (s.is_mounted && not s.is_paused)) [
  | inl e ↦ rw e (flushed s.events_queue h)
  | inr e ↦ rw e h
]
  where
    flushed :
        (q : List AgentEvent)
        → (window most_events (s.events ++ q) ≡ window most_events all)
          × (length s.events ≤ most_events)
        → Holds all (flush q s)
    flushed [] (w, l) = h
    flushed (e ∷ q) (w, l) = (
      window-append most_events (s.events ++ e ∷ q) []
          ∙ ap (λ (u : List AgentEvent). window most_events u) (append-nil (s.events ++ e ∷ q))
          ∙ w,
      length-window most_events (s.events ++ e ∷ q),
    )

receive-Holds :
    (all : List AgentEvent) (o : Option Socket) (i : ℕ) (f : Frame) (s : Feed)
    → IsShort (message i f)
    → Holds all s
    → Holds (with_frame o f s.events_queue all) (receive o f s)
unfolding receive
receive-Holds all none i (history events) s v h = h
receive-Holds all none i (live e) s v h = h
receive-Holds all none i other s v h = h
receive-Holds all (some w) i f s v h = elim (Bool-cases w.is_closing) [
  | inl c ↦ ignored f c
  | inr c ↦ heard f v c
]
  where
    ignored :
        (f : Frame)
        → w.is_closing ≡ true
        → Holds
            (with_frame (some w) f s.events_queue all)
            (if w.is_closing then s else handle_frame f s)
    ignored (history events) c = rw c h
    ignored (live e) c = rw c h
    ignored other c = rw c h

    heard :
        (f : Frame)
        → IsShort (message i f)
        → w.is_closing ≡ false
        → Holds
            (with_frame (some w) f s.events_queue all)
            (if w.is_closing then s else handle_frame f s)
    heard (history events) v c = unfold handle_frame in rw c (refl, v)
    heard (live e) v c = rw c (live-Holds all e s h)
    heard other v c = unfold handle_frame in rw c h

toggle-Holds : (all : List AgentEvent) (s : Feed) → Holds all s → Holds all (toggle_pause s)
unfolding toggle_pause connect clean_up
toggle-Holds all s h = elim (Bool-cases s.is_mounted) [ inl e ↦ rw e h | inr e ↦ rw e h ]

unmount-Holds : (all : List AgentEvent) (s : Feed) → Holds all s → Holds all (unmount s)
unfolding unmount clean_up
unmount-Holds all s h = elim (Bool-cases s.is_mounted) [ inl e ↦ rw e h | inr e ↦ rw e h ]

closed-Holds :
    (all : List AgentEvent) (o : Option Socket) (i : ℕ) (s : Feed)
    → Holds all s
    → Holds all (close_found o i s)
unfolding close_found
closed-Holds all none i s h = h
closed-Holds all (some w) i s h = h

fire-Holds : (all : List AgentEvent) (n : ℕ) (s : Feed) → Holds all s → Holds all (fire n s)
unfolding fire connect
fire-Holds all zero s h = h
fire-Holds all (suc n) s h = h

run-Holds :
    (all : List AgentEvent) (s : Feed) (es : List Event)
    → All IsShort es
    → Holds all s
    → Holds (arrivals all s es) (run s es)
unfolding run step arrivals
run-Holds all s [] v h = h
run-Holds all s (message i f ∷ es) (v, vs) h =
    run-Holds (with_frame (get_elem? s.sockets i) f s.events_queue all) (step (message i f) s) es vs
      (receive-Holds all (get_elem? s.sockets i) i f s v h)
run-Holds all s (pause_clicked ∷ es) (v, vs) h =
    run-Holds all (step pause_clicked s) es vs (toggle-Holds all s h)
run-Holds all s (unmounted ∷ es) (v, vs) h =
    run-Holds all (step unmounted s) es vs (unmount-Holds all s h)
run-Holds all s (filter_chosen node ∷ es) (v, vs) h =
    run-Holds all (step (filter_chosen node) s) es vs h
run-Holds all s (socket_closed i ∷ es) (v, vs) h =
    run-Holds all (step (socket_closed i) s) es vs (closed-Holds all (get_elem? s.sockets i) i s h)
run-Holds all s (timer_fired ∷ es) (v, vs) h =
    run-Holds all (step timer_fired s) es vs (fire-Holds all s.timers s h)
run-Holds all s (tick ∷ es) (v, vs) h = run-Holds all (step tick s) es vs (tick-Holds all s h)

tick-empties :
    (s : Feed) → s.is_mounted ≡ true → s.is_paused ≡ false → (on_tick s).events_queue ≡ []
unfolding on_tick
tick-empties s m p =
    let ready : (s.is_mounted && not s.is_paused) ≡ true = ground (arith, m, p) in
    rw ready (emptied s.events_queue refl)
  where
    emptied : (q : List AgentEvent) → s.events_queue ≡ q → (flush q s).events_queue ≡ []
    emptied [] e = unfold flush in e
    emptied (x ∷ q) e = unfold flush in refl

-- Whatever the clicks, closes, timers and messages since the feed was mounted, if no history is longer
-- than 500 events and the feed is still mounted and not paused: after the next tick it shows the last
-- 500 of the events of the latest history, if there was one, then the live events that waited when it
-- came, then those that open sockets have brought since, a pause included; and none waits. So a history,
-- which comes with every new connection, takes the place of what was shown before.
pub feed_is_window :
    (es : List Event)
    → All IsShort es
    → (run mount es).is_mounted ≡ true
    → (run mount es).is_paused ≡ false
    → let t = step tick (run mount es) in
      (t.events ≡ window most_events (arrivals [] mount es))
      × (length t.events ≤ most_events)
      × (t.events_queue ≡ [])
unfolding step
feed_is_window es v m p =
    let s = run mount es in
    let begun : Holds [] mount = unfold mount connect in (refl, omega arith) in
    let (w, l) = tick-Holds (arrivals [] mount es) s (run-Holds [] mount es v begun) in
    let empty : (on_tick s).events_queue ≡ [] = tick-empties s m p in
    let shown : window most_events (on_tick s).events ≡ window most_events (arrivals [] mount es) =
      ap (λ (u : List AgentEvent). window most_events u)
        (sym (append-nil (on_tick s).events)
          ∙ ap (λ (q : List AgentEvent). (on_tick s).events ++ q) (sym empty))
      ∙ w in
    (sym (window_short most_events (on_tick s).events l) ∙ shown, l, empty)
