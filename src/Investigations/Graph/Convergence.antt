-- ===== src/Investigations/Graph/Convergence.antt =====
-- From mounting to unmounting no update is lost, however the ticks fall.
use Prim.Native.String.{String}
use mathlib.Core.List.{append-nil, append_assoc}
use homelabs_siem_soar.Prelude.{
  ◌≡◌, ◌∙◌, refl, sym, ap, true, false, Option, none, some, List, [], ◌∷◌, ◌++◌, All,
}
use homelabs_siem_soar.Hooks.AsyncState.{Reply, ok, failed}
use homelabs_siem_soar.Investigations.Graph.{
  Node, Update, Body, Graph, start, apply_update, apply_batch, snapshot_of, Event, shown, unmounted,
  message, tick, snapshot, step, run, on_message, queued, on_tick, ticked, show, on_snapshot,
  fetch_found, settle,
}

-- Messages and ticks.
abbrev IsTraffic : Event → Type 0
IsTraffic (message u) = Unit {0}
IsTraffic tick = Unit {0}
IsTraffic _ = ⊥

abbrev updates_of : Option Update → List Update
updates_of none = []
updates_of (some u) = u ∷ []

abbrev update_of : Event → List Update
update_of (message u) = updates_of u
update_of _ = []

-- The updates among some events, in order.
abbrev pub updates : List Event → List Update
updates [] = []
updates (e ∷ es) = update_of e ++ updates es

apply_batch-append :
    (nodes : List Node) (us vs : List Update)
    → apply_batch nodes (us ++ vs) ≡ apply_batch (apply_batch nodes us) vs
unfolding apply_batch
apply_batch-append nodes [] vs = refl
apply_batch-append nodes (u ∷ us) vs = apply_batch-append (apply_update u nodes) us vs

message_lem :
    (id : String) (s : Graph) (o : Option Update)
    → s.session ≡ some id
    → on_message o s ≡ record s { pending_updates = s.pending_updates ++ updates_of o }
unfolding on_message queued
message_lem id s none q =
    ap (λ (p : List Update). record s { pending_updates = p }) (sym (append-nil s.pending_updates))
message_lem id s (some u) q = rw (q, queued) refl

-- An empty graph that waits for its snapshot, with the requests and the updates that it has.
abbrev Waits : String → List String → List Update → Graph → Type 0
Waits id fetches us s =
    (s.session ≡ some id)
    × (s.is_snapshot_loaded ≡ false)
    × (s.fetches ≡ fetches)
    × (s.pending_updates ≡ us)
    × (s.nodes ≡ [])

Waits-run :
    (id : String) (fetches : List String) (us : List Update) (s : Graph) (es : List Event)
    → All IsTraffic es
    → Waits id fetches us s
    → Waits id fetches (us ++ updates es) (run s es)
unfolding run
Waits-run id fetches us s [] h w = (w.0, w.1, w.2, w.3 ∙ sym (append-nil us), w.4)
Waits-run id fetches us s (shown b ∷ es) h w = absurd h.0
Waits-run id fetches us s (unmounted ∷ es) h w = absurd h.0
Waits-run id fetches us s (snapshot i r ∷ es) h w = absurd h.0
Waits-run id fetches us s (message o ∷ es) h w =
    let e = message_lem id s o w.0 in
    rw (← append_assoc us (updates_of o) (updates es)) (
      Waits-run id fetches (us ++ updates_of o) (on_message o s) es h.1
        (rw e (w.0, w.1, w.2, ap (λ p. p ++ updates_of o) w.3, w.4)))
Waits-run id fetches us s (tick ∷ es) h w =
    let e : on_tick s ≡ s = unfold on_tick ticked in rw (w.0, ticked) (rw w.1 refl) in
    Waits-run id fetches us (on_tick s) es h.1 (rw e w)

-- A graph that has its snapshot, with the requests in flight and what a tick makes of it.
abbrev Shows : String → List String → List Node → Graph → Type 0
Shows id fetches nodes s =
    (s.session ≡ some id)
    × (s.is_snapshot_loaded ≡ true)
    × (apply_batch s.nodes s.pending_updates ≡ nodes)
    × (s.fetches ≡ fetches)

tick_lem :
    (id : String) (s : Graph)
    → s.session ≡ some id
    → s.is_snapshot_loaded ≡ true
    → on_tick s ≡ record s { nodes = apply_batch s.nodes s.pending_updates; pending_updates = [] }
unfolding on_tick ticked
tick_lem id s q l = rw (q, ticked) (rw l refl)

Shows-run :
    (id : String) (fetches : List String) (nodes : List Node) (s : Graph) (es : List Event)
    → All IsTraffic es
    → Shows id fetches nodes s
    → Shows id fetches (apply_batch nodes (updates es)) (run s es)
unfolding run
Shows-run id fetches nodes s [] h w = (w.0, w.1, unfold apply_batch in w.2, w.3)
Shows-run id fetches nodes s (shown b ∷ es) h w = absurd h.0
Shows-run id fetches nodes s (unmounted ∷ es) h w = absurd h.0
Shows-run id fetches nodes s (snapshot i r ∷ es) h w = absurd h.0
Shows-run id fetches nodes s (message o ∷ es) h w =
    let e = message_lem id s o w.0 in
    rw (apply_batch-append nodes (updates_of o) (updates es)) (
      Shows-run id fetches (apply_batch nodes (updates_of o)) (on_message o s) es h.1 (
        rw e (
          w.0,
          w.1,
          apply_batch-append s.nodes s.pending_updates (updates_of o)
              ∙ ap (λ ns. apply_batch ns (updates_of o)) w.2,
          w.3,
        )))
Shows-run id fetches nodes s (tick ∷ es) h w =
    Shows-run id fetches nodes (on_tick s) es h.1
      (rw (tick_lem id s w.0 w.1) (w.0, w.1, unfold apply_batch in w.2, w.3))

pub run-append : (s : Graph) (es fs : List Event) → run s (es ++ fs) ≡ run (run s es) fs
unfolding run
run-append s [] fs = refl
run-append s (e ∷ es) fs = run-append (step e s) es fs

-- The nodes that a reply brings to an empty graph.
abbrev pub brought : Reply Body → List Node
brought (ok body) = (snapshot_of body).nodes
brought (failed error) = []

settled-Shows :
    (id : String) (us : List Update) (s : Graph) (reply : Reply Body)
    → Waits id (id ∷ []) us s
    → Shows id [] (apply_batch (brought reply) us) (on_snapshot 0 reply s)
unfolding on_snapshot fetch_found settle
settled-Shows id us s (ok body) w = rw (w.2, w.3) (w.0, refl, refl, refl)
settled-Shows id us s (failed m) w =
    rw (w.2, w.3) (w.0, refl, ap (λ ns. apply_batch ns us) w.4, refl)

-- Whatever the messages and ticks before and after the reply of the history: after the next tick the
-- nodes are those of the reply with every update applied, in the order in which the updates arrived,
-- the early ones included, and nothing waits any more. If the request fails, the nodes are the updates
-- alone.
pub graph_converges :
    (id : String) (reply : Reply Body) (before after : List Event)
    → All IsTraffic before
    → All IsTraffic after
    → let end = run start (shown id ∷ (before ++ (snapshot 0 reply ∷ (after ++ tick ∷ [])))) in
      (end.nodes ≡ apply_batch (brought reply) (updates before ++ updates after))
      × (end.pending_updates ≡ [])
unfolding run step start show
graph_converges id reply before after h k =
    let opened = run (show id start) before in
    let last = run (on_snapshot 0 reply opened) after in
    let waiting =
      Waits-run id (id ∷ []) [] (show id start) before h (refl, refl, refl, refl, refl) in
    let shows =
      Shows-run id [] (apply_batch (brought reply) (updates before)) (on_snapshot 0 reply opened)
        after k (settled-Shows id (updates before) opened reply waiting) in
    let end_lem : run (show id start) (before ++ (snapshot 0 reply ∷ (after ++ tick ∷ [])))
        ≡ on_tick last =
      run-append (show id start) before (snapshot 0 reply ∷ (after ++ tick ∷ []))
      ∙ run-append (on_snapshot 0 reply opened) after (tick ∷ []) in
    rw end_lem (
      rw (tick_lem id last shows.0 shows.1)
        (shows.2 ∙ sym (apply_batch-append (brought reply) (updates before) (updates after)), refl))
