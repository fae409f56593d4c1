-- ===== src/Assets/NetworkMap/Page/Safety.antt =====
-- What holds of the page after any events.
use mathlib.Core.List.{Memᴰ}
use homelabs_siem_soar.Prelude.{
  ℕ, zero, suc, ◌≡◌, refl, true, false, not, ◌&&◌, ◌||◌, Option, none, some, List, [], ◌∷◌, All,
  length, length-append, length-remove_at, get_elem?, arith, Bool-cases, Option-cases, inl, inr,
  if◌then◌else◌,
}
use homelabs_siem_soar.Assets.NetworkMap.{Node, Finding, is_open}
use homelabs_siem_soar.Assets.NetworkMap.Page.{
  Task, Page, start, is_action, is_some, Event, load_begun, load_ended, node_clicked,
  sidebar_closed, overlay_chosen, simulation_pressed, action_pressed, action_ended, Outcome, step,
  run, has_button, handle_response_action, action_found, node_found, action_clicked, task_found,
  action_settled, simulation_clicked, select_node, task_of,
}

-- A request that takes the recommended action of an open finding of a node, with their ids, and that has
-- no token.
abbrev IsOffered : Task → Type 0
IsOffered t =
    (node : Node) × (f : Finding) × Memᴰ f node.findings
    × (is_open f.status ≡ true)
    × (is_action t.action ≡ true)
    × (t.action ≡ f.recommended_action)
    × (t.endpoint_id ≡ node.raw.id)
    × (t.finding_id ≡ f.finding_id)
    × (t.two_key_token ≡ none)

-- A simulation has a node; at most one request is in flight, and the buttons are disabled exactly
-- then; and every request that was sent was offered.
pub record IsSafe (s : Page) : Type 0 where
  pub has_node : (not s.simulating_path || is_some s.selected_node) ≡ true
  pub one_request : length s.in_flight ≡ (if s.action_submitting then 1 else 0)
  pub offered : All IsOffered s.posts

found-Memᴰ : (fs : List Finding) (i : ℕ) (f : Finding) → get_elem? fs i ≡ some f → Memᴰ f fs
found-Memᴰ [] i f e = absurd (cc)
found-Memᴰ (g ∷ fs) zero f e = Memᴰ.head (let same : f ≡ g = cc in same)
found-Memᴰ (g ∷ fs) (suc i) f e = Memᴰ.tail (found-Memᴰ fs i f e)

handle-IsSafe :
    (node : Node) (f : Finding) (s : Page)
    → Memᴰ f node.findings
    → is_open f.status ≡ true
    → is_action f.recommended_action ≡ true
    → s.action_submitting ≡ false
    → IsSafe s
    → IsSafe (handle_response_action node f s)
unfolding handle_response_action task_of
handle-IsSafe node f s m o a n v = rw a (record {
  has_node = v.has_node;
  one_request = ground (arith, length-append s.in_flight (task_of node f ∷ []), v.one_request);
  offered = ((node, f, m, o, a, refl, refl, refl, refl), v.offered);
})

action-IsSafe :
    (node : Node) (i : ℕ) (o : Option Finding) (s : Page)
    → get_elem? node.findings i ≡ o
    → IsSafe s
    → IsSafe (action_found node o s)
unfolding action_found
action-IsSafe node i none s q v = v
action-IsSafe node i (some f) s q v = elim (Bool-cases (has_button f && not s.action_submitting)) [
  | inl e ↦ rw e (
      handle-IsSafe node f s (found-Memᴰ node.findings i f q) (ground arith) (ground arith)
        (ground arith) v)
  | inr e ↦ rw e v
]

node-IsSafe : (o : Option Node) (i : ℕ) (s : Page) → IsSafe s → IsSafe (node_found o i s)
unfolding node_found
node-IsSafe none i s v = v
node-IsSafe (some node) i s v = action-IsSafe node i (get_elem? node.findings i) s refl v

settled-IsSafe : (i : ℕ) (o : Outcome) (s : Page) → IsSafe s → IsSafe (action_settled i o s)
unfolding action_settled task_found
settled-IsSafe i o s v = elim (Option-cases (get_elem? s.in_flight i)) [
  | inl e ↦ rw e v
  | inr (t, e) ↦ rw e (record {
    has_node = v.has_node;
    one_request = ground (arith, length-remove_at s.in_flight i e, v.one_request);
    offered = v.offered;
  })
]

simulation-IsSafe : (s : Page) → IsSafe s → IsSafe (simulation_clicked s)
unfolding simulation_clicked
simulation-IsSafe s v = elim (Bool-cases (is_some s.selected_node)) [
  | inl e ↦
      rw e (record {
        has_node = rw e (ground arith);
        one_request = v.one_request;
        offered = v.offered;
      })
  | inr e ↦ rw e v
]

step-IsSafe : (e : Event) (s : Page) → IsSafe s → IsSafe (step e s)
unfolding step select_node
step-IsSafe load_begun s v = record {
  has_node = v.has_node;
  one_request = v.one_request;
  offered = v.offered;
}
step-IsSafe (load_ended reply) s v = record {
  has_node = v.has_node;
  one_request = v.one_request;
  offered = v.offered;
}
step-IsSafe (node_clicked node) s v = record {
  has_node = refl;
  one_request = v.one_request;
  offered = v.offered;
}
step-IsSafe sidebar_closed s v = record {
  has_node = refl;
  one_request = v.one_request;
  offered = v.offered;
}
step-IsSafe (overlay_chosen mode) s v = record {
  has_node = v.has_node;
  one_request = v.one_request;
  offered = v.offered;
}
step-IsSafe simulation_pressed s v = simulation-IsSafe s v
step-IsSafe (action_pressed i) s v = unfold action_clicked in node-IsSafe s.selected_node i s v
step-IsSafe (action_ended i o) s v = settled-IsSafe i o s v

run-IsSafe : (s : Page) (es : List Event) → IsSafe s → IsSafe (run s es)
unfolding run
run-IsSafe s [] v = v
run-IsSafe s (e ∷ es) v = run-IsSafe (step e s) es (step-IsSafe e s v)

-- Whatever the events and their order: a simulation always has a node, at most one response action is
-- in flight and the buttons are disabled exactly while one is, and every request that was ever sent
-- takes the recommended action of an open finding of a node, which is not "none", and carries the ids of
-- both and no token.
pub response_actions_offered : (es : List Event) → IsSafe (run start es)
unfolding start
response_actions_offered es =
    run-IsSafe start es (record { has_node = refl; one_request = refl; offered = tt })
