-- ===== src/AgentOps/Resilience/Live.antt =====
-- What live events do to the data of the panel.
use Prim.Native.String.{String}
use text.Mathlib.Text.{◌==◌ as str_eq}
use homelabs_siem_soar.Prelude.{
  ℕ, zero, suc, ◌+◌, ◌≡◌, ◌∙◌, refl, ap, ap₂, Bool, false, not, ◌&&◌, Option, none, some, List, [],
  ◌∷◌, map, arith, count_by, get_elem?, if◌then◌else◌, map-map_lem, ltb, is_empty, text_or,
  Bool-cases, inl, inr,
}
use homelabs_siem_soar.AgentOps.Resilience.{
  AgentNode, degraded, healthy, ResilienceData, LiveEvent, Socket, Panel, live, message, measured,
  measured_in, update_node, update_found, update_live, handle_frame, step, run,
}

abbrev ms_of : Option ℕ → ℕ
ms_of none = 0
ms_of (some ms) = ms

-- The event names a node and has a latency, which 0 and a missing one do not count as.
unfoldable pub is_measured : LiveEvent → Bool
is_measured e = not (is_empty (text_or e.node "")) && ltb 0 (ms_of e.latency_ms)

-- The event is measured and names the node.
pub concerns : String → LiveEvent → Bool
concerns name e = is_measured e && str_eq name (text_or e.node "")

-- The last event that concerns a node, or else a given one.
unfoldable pub latest : Option LiveEvent → String → List LiveEvent → Option LiveEvent
latest found name [] = found
latest found name (e ∷ es) = latest (if concerns name e then some e else found) name es

-- A node as an event shows it: its name and its rate of fallbacks stay, and it is degraded exactly if
-- the status of the event is "failed".
unfoldable pub shown_by : Option LiveEvent → AgentNode → AgentNode
shown_by none n = n
shown_by (some e) n = record {
  name = n.name;
  status = if str_eq e.status "failed" then degraded else healthy;
  latency_ms = ms_of e.latency_ms;
  last_event_at = some e.timestamp;
  fallback_rate = n.fallback_rate;
}

abbrev update_by : Option (String × ℕ) → LiveEvent → AgentNode → AgentNode
update_by none e n = n
update_by (some (name, ms)) e n = update_node name ms e n

measured-eq :
    (node : Option String) (ms : Option ℕ)
    → measured_in node ms ≡ (
        if not (is_empty (text_or node "")) && ltb 0 (ms_of ms)
        then some (text_or node "", ms_of ms)
        else none)
measured-eq none ms = refl
measured-eq (some String.[]) none = refl
measured-eq (some (String.◌∷◌ c s)) none = refl
measured-eq (some String.[]) (some zero) = refl
measured-eq (some String.[]) (some (suc ms)) = refl
measured-eq (some (String.◌∷◌ c s)) (some zero) = refl
measured-eq (some (String.◌∷◌ c s)) (some (suc ms)) = ground arith

update_node-shown :
    (found : Option LiveEvent) (e : LiveEvent) (n : AgentNode)
    → update_node (text_or e.node "") (ms_of e.latency_ms) e (shown_by found n)
      ≡ shown_by (if str_eq n.name (text_or e.node "") then some e else found) n
unfolding update_node shown_by
update_node-shown none e n = elim (Bool-cases (str_eq n.name (text_or e.node ""))) [
  | inl m ↦ rw m refl
  | inr m ↦ rw m refl
]
update_node-shown (some x) e n = elim (Bool-cases (str_eq n.name (text_or e.node ""))) [
  | inl m ↦ rw m refl
  | inr m ↦ rw m refl
]

update-shown :
    (found : Option LiveEvent) (e : LiveEvent) (n : AgentNode)
    → update_by (measured e) e (shown_by found n)
      ≡ shown_by (if concerns n.name e then some e else found) n
unfolding concerns is_measured
update-shown found e n = elim (Bool-cases (is_measured e)) [
  | inl m ↦ rw (measured-eq e.node e.latency_ms) (rw m (update_node-shown found e n))
  | inr m ↦ rw (measured-eq e.node e.latency_ms) (rw m refl)
]

follow : AgentNode → List LiveEvent → AgentNode
follow n [] = n
follow n (e ∷ es) = follow (update_by (measured e) e n) es

follow-shown :
    (found : Option LiveEvent) (n : AgentNode) (es : List LiveEvent)
    → follow (shown_by found n) es ≡ shown_by (latest found n.name es) n
unfolding follow latest
follow-shown found n [] = refl
follow-shown found n (e ∷ es) =
    ap (λ (m : AgentNode). follow m es) (update-shown found e n)
    ∙ follow-shown (if concerns n.name e then some e else found) n es

same_nodes : (ns : List AgentNode) → ns ≡ map (λ n. n) ns
same_nodes [] = refl
same_nodes (n ∷ ns) = ap (λ (r : List AgentNode). n ∷ r) (same_nodes ns)

found-nodes :
    (o : Option (String × ℕ)) (e : LiveEvent) (d : ResilienceData)
    → (update_found o e d).nodes ≡ map (update_by o e) d.nodes
unfolding update_found
found-nodes none e d = same_nodes d.nodes
found-nodes (some (name, ms)) e d = refl

live-total :
    (e : LiveEvent) (d : ResilienceData)
    → (update_live e d).total_processed ≡ d.total_processed + (if is_measured e then 1 else 0)
unfolding update_live update_found is_measured
live-total e d = elim (Bool-cases (is_measured e)) [
  | inl m ↦ rw (measured-eq e.node e.latency_ms) (rw m refl)
  | inr m ↦ rw (measured-eq e.node e.latency_ms) (rw m (omega arith))
]

found-fallbacks :
    (o : Option (String × ℕ)) (e : LiveEvent) (d : ResilienceData)
    → (update_found o e d).fallback_total ≡ d.fallback_total
unfolding update_found
found-fallbacks none e d = refl
found-fallbacks (some (name, ms)) e d = refl

step-live :
    (s : Panel) (i : ℕ) (w : Socket) (e : LiveEvent)
    → get_elem? s.sockets i ≡ some w
    → w.is_closing ≡ false
    → step (message i (live e)) s ≡ record s { data_ = update_live e s.data_ }
unfolding step handle_frame
step-live s i w e g c = rw (g, c) refl

updates : List LiveEvent → ResilienceData → ResilienceData
updates [] d = d
updates (e ∷ es) d = updates es (update_live e d)

run-live :
    (s : Panel) (i : ℕ) (w : Socket) (es : List LiveEvent)
    → get_elem? s.sockets i ≡ some w
    → w.is_closing ≡ false
    → (run s (map (λ e. message i (live e)) es)).data_ ≡ updates es s.data_
unfolding run updates
run-live s i w [] g c = refl
run-live s i w (e ∷ es) g c =
    ap (λ (p : Panel). (run p (map (λ x. message i (live x)) es)).data_) (step-live s i w e g c)
    ∙ run-live (record s { data_ = update_live e s.data_ }) i w es g c

updates-lem :
    (es : List LiveEvent) (d : ResilienceData)
    → ((updates es d).nodes ≡ map (λ n. follow n es) d.nodes)
      × ((updates es d).total_processed ≡ d.total_processed + count_by is_measured es)
      × ((updates es d).fallback_total ≡ d.fallback_total)
unfolding updates update_live follow
updates-lem [] d = (same_nodes d.nodes, omega arith, refl)
updates-lem (e ∷ es) d =
    let (nodes, total, fallbacks) = updates-lem es (update_live e d) in
    (
      nodes
          ∙ ap (map (λ n. follow n es)) (found-nodes (measured e) e d)
          ∙ map-map_lem (λ n. follow n es) (update_by (measured e) e) d.nodes,
      omega (arith, total, live-total e d),
      fallbacks ∙ found-fallbacks (measured e) e d,
    )

followed :
    (es : List LiveEvent) (ns : List AgentNode)
    → map (λ n. follow n es) ns ≡ map (λ n. shown_by (latest none n.name es) n) ns
unfolding shown_by
followed es [] = refl
followed es (n ∷ ns) = ap₂ ◌∷◌ (follow-shown none n es) (followed es ns)

-- Live events on a socket that is not closing. Each node shows the latency, the time and the status of
-- the last event that names it and has a latency other than 0, degraded if that status is "failed" and
-- healthy if not, whatever it was before, and a node that no such event names stays as it was. Each such
-- event counts as processed, a node of its name being there or not, but the count of fallbacks stays as
-- it was, whether or not an event reports one.
pub live_events_update :
    (s : Panel) (i : ℕ) (w : Socket) (es : List LiveEvent)
    → get_elem? s.sockets i ≡ some w
    → w.is_closing ≡ false
    → let t = run s (map (λ e. message i (live e)) es) in
      (t.data_.nodes ≡ map (λ n. shown_by (latest none n.name es) n) s.data_.nodes)
      × (t.data_.total_processed ≡ s.data_.total_processed + count_by is_measured es)
      × (t.data_.fallback_total ≡ s.data_.fallback_total)
live_events_update s i w es g c =
    let (nodes, total, fallbacks) = updates-lem es s.data_ in
    rw (run-live s i w es g c) (nodes ∙ followed es s.data_.nodes, total, fallbacks)
