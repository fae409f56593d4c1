-- ===== src/AgentOps/TriageFeed/Connections.antt =====
-- How many connections the feed keeps up.
use homelabs_siem_soar.Prelude.{
  ℕ, zero, suc, ◌+◌, ◌≡◌, refl, ap, ap₂, ◌∙◌, Bool, true, false, not, ◌&&◌, Option, none, some,
  List, [], ◌∷◌, arith, length, length-append, length-map, length-remove_at, get_elem?, Bool-cases,
  Option-cases, inl, inr, if◌then◌else◌,
}
use homelabs_siem_soar.AgentOps.TriageFeed.{
  Feed, Frame, history, live, other, Socket, AgentEvent, Event, pause_clicked, unmounted,
  filter_chosen, message, socket_closed, timer_fired, tick, mount, connect, clean_up, close_if,
  toggle_pause, unmount, receive, handle_frame, close_found, fire, on_tick, flush, step, run,
}

-- The clicks on the pause button while the feed is mounted.
abbrev pub toggles : Bool → List Event → ℕ
toggles mounted [] = 0
toggles mounted (pause_clicked ∷ es) =
    let rest = toggles mounted es in if mounted then suc rest else rest
toggles mounted (unmounted ∷ es) = toggles false es
toggles mounted (_ ∷ es) = toggles mounted es

-- The sockets that have not reported their close, and the timers that will make one each.
abbrev pub connections : Feed → ℕ
connections s = length s.sockets + s.timers

connections-clean_up : (s : Feed) → connections (clean_up s) ≡ connections s
unfolding clean_up
connections-clean_up s = omega (arith, length-map (close_if s.ws_ref) s.sockets)

connections-connect : (s : Feed) → connections (connect s) ≡ suc (connections s)
unfolding connect
connections-connect s =
    omega (arith, length-append s.sockets (record { number = s.fresh; is_closing = false } ∷ []))

-- A step keeps the connections and whether the feed is mounted.
abbrev Keeps : Feed → Feed → Type 0
Keeps s t = (connections t ≡ connections s) × (t.is_mounted ≡ s.is_mounted)

receive-Keeps : (o : Option Socket) (f : Frame) (s : Feed) → Keeps s (receive o f s)
unfolding receive handle_frame
receive-Keeps none f s = (refl, refl)
receive-Keeps (some w) f s = elim (Bool-cases w.is_closing) [
  | inl e ↦ rw e (refl, refl)
  | inr e ↦ rw e (frame f)
]
  where
    frame : (f : Frame) → Keeps s (handle_frame f s)
    frame (history events) = (refl, refl)
    frame (live event) = (refl, refl)
    frame other = (refl, refl)

closed-Keeps : (i : ℕ) (s : Feed) → Keeps s (close_found (get_elem? s.sockets i) i s)
unfolding close_found
closed-Keeps i s = elim (Option-cases (get_elem? s.sockets i)) [
  | inl e ↦ rw e (refl, refl)
  | inr (w, e) ↦ rw e (omega (arith, length-remove_at s.sockets i e), refl)
]

fire-Keeps : (n : ℕ) (s : Feed) → n ≡ s.timers → Keeps s (fire n s)
unfolding fire
fire-Keeps zero s h = (refl, refl)
fire-Keeps (suc n) s h =
    (connections-connect (record s { timers = n }) ∙ omega (arith, h), unfold connect in refl)

tick-Keeps : (s : Feed) → Keeps s (on_tick s)
unfolding on_tick flush
tick-Keeps s = elim (Bool-cases (s.is_mounted && not s.is_paused)) [
  | inl e ↦ rw e (flushed s.events_queue)
  | inr e ↦ rw e (refl, refl)
]
  where
    flushed : (q : List AgentEvent) → Keeps s (flush q s)
    flushed [] = (refl, refl)
    flushed (e ∷ q) = (refl, refl)

toggle-connections :
    (s : Feed) → connections (toggle_pause s) ≡ connections s + (if s.is_mounted then 1 else 0)
unfolding toggle_pause
toggle-connections s =
    let off : Feed = record s { is_paused = not s.is_paused } in
    elim (Bool-cases s.is_mounted) [
      | inl m ↦ rw m (omega (arith, connections-connect (clean_up off), connections-clean_up off))
      | inr m ↦ rw m (omega arith)
    ]

toggles-pause :
    (b : Bool) (es : List Event)
    → toggles b (pause_clicked ∷ es) ≡ toggles b es + (if b then 1 else 0)
toggles-pause true es = omega arith
toggles-pause false es = omega arith

unmount-connections : (s : Feed) → connections (unmount s) ≡ connections s
unfolding unmount
unmount-connections s = elim (Bool-cases s.is_mounted) [
  | inl e ↦ rw e (connections-clean_up (record s { is_mounted = false }))
  | inr e ↦ rw e refl
]

toggle-is_mounted : (s : Feed) → (toggle_pause s).is_mounted ≡ s.is_mounted
unfolding toggle_pause connect clean_up
toggle-is_mounted s = ground arith

unmount-is_mounted : (s : Feed) → (unmount s).is_mounted ≡ false
unfolding unmount clean_up
unmount-is_mounted s = ground arith

kept :
    (e : Event) (s : Feed) (es : List Event)
    → Keeps s (step e s)
    → connections (run (step e s) es) ≡ connections (step e s) + toggles (step e s).is_mounted es
    → connections (run (step e s) es) ≡ connections s + toggles s.is_mounted es
kept e s es (c, m) h = h ∙ ap₂ (λ (n : ℕ) (b : Bool). n + toggles b es) c m

run-connections :
    (s : Feed) (es : List Event) → connections (run s es) ≡ connections s + toggles s.is_mounted es
unfolding run step
run-connections s [] = omega arith
run-connections s (pause_clicked ∷ es) = omega (
  arith,
  run-connections (toggle_pause s) es,
  ap (λ (b : Bool). toggles b es) (toggle-is_mounted s),
  toggle-connections s,
  toggles-pause s.is_mounted es,
)
run-connections s (unmounted ∷ es) =
    run-connections (unmount s) es
    ∙ ap₂ (λ (n : ℕ) (b : Bool). n + toggles b es) (unmount-connections s) (unmount-is_mounted s)
run-connections s (filter_chosen node ∷ es) = run-connections (step (filter_chosen node) s) es
run-connections s (message i f ∷ es) =
    kept (message i f) s es (receive-Keeps (get_elem? s.sockets i) f s)
      (run-connections (step (message i f) s) es)
run-connections s (socket_closed i ∷ es) =
    kept (socket_closed i) s es (closed-Keeps i s) (run-connections (step (socket_closed i) s) es)
run-connections s (timer_fired ∷ es) =
    kept timer_fired s es (fire-Keeps s.timers s refl) (run-connections (step timer_fired s) es)
run-connections s (tick ∷ es) = kept tick s es (tick-Keeps s) (run-connections (step tick s) es)

-- Whatever the events, unmounting included: the sockets and the waiting timers of the feed are one more
-- than the clicks on the pause button. So none is ever given up, and the clean-up of each click leaves
-- the old connection to come back beside the new one.
pub connections_grow :
    (es : List Event) → length (run mount es).sockets + (run mount es).timers ≡ 1 + toggles true es
unfolding mount connect
connections_grow es = run-connections mount es
