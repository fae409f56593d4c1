-- ===== src/Assets/NetworkMap/Graph/Completeness.antt =====
-- The search visits every node that a path leads to.
use Prim.Native.String.{String}
use text.Mathlib.Text.{◌==◌ as str_eq}
use text.Mathlib.TextEquality.{eq_iff}
use text.Mathlib.TextPositions.{eq_refl}
use mathlib.Core.Path.{subst}
use homelabs_siem_soar.Prelude.{
  ℕ, zero, suc, ◌≡◌, ◌∙◌, refl, sym, ◌⊎◌, true, not, ◌&&◌, some, List, [], ◌∷◌, ◌++◌, arith, inl,
  inr, Bool-cases,
}
use homelabs_siem_soar.Prelude.IdSet.{IdSet, has, add, has-add, has-append}
use homelabs_siem_soar.Assets.NetworkMap.Graph.{
  Edge, id_of, Search, follow, visit_edge, visit_edges, search_loop,
}
use homelabs_siem_soar.Assets.NetworkMap.Graph.Paths.{Joins}

-- What one part of a turn keeps: nothing leaves the set or the queue, and what is new in the set is
-- in the queue.
pub record Grows (s t : Search) : Type 0 where
  pub keeps : (a : String) → has s.visited a ≡ true → has t.visited a ≡ true
  pub waits : (a : String) → has s.queue a ≡ true → has t.queue a ≡ true
  pub queued :
      (a : String) → has t.visited a ≡ true → (has s.visited a ≡ true) ⊎ (has t.queue a ≡ true)

same-Grows : (s : Search) → Grows s s
same-Grows s = record { keeps = λ a h. h; waits = λ a h. h; queued = λ a h. inl h }

trans-Grows : {s t u : Search} → Grows s t → Grows t u → Grows s u
trans-Grows {s} {t} {u} g k = record {
  keeps = λ a h. k.keeps a (g.keeps a h);
  waits = λ a h. k.waits a (g.waits a h);
  queued = λ a h. elim (k.queued a h) [
    | inr q ↦ inr q
    | inl v ↦ elim (g.queued a v) [ inl w ↦ inl w | inr q ↦ inr (k.waits a q) ]
  ];
}

push-Grows :
    (s : Search) (to : String)
    → Grows s (record { visited = add s.visited to; queue = s.queue ++ to ∷ [] })
unfolding has
push-Grows s to = record {
  keeps = λ a h. ground (arith, has-add s.visited to a);
  waits = λ a h. ground (arith, has-append s.queue (to ∷ []) a);
  queued = λ a h. elim (Bool-cases (has s.visited a)) [
    | inl old ↦ inl old
    | inr new ↦ inr (ground (arith, has-add s.visited to a, has-append s.queue (to ∷ []) a))
  ];
}

follow-Grows : (curr from to : String) (s : Search) → Grows s (follow curr from to s)
unfolding follow
follow-Grows curr from to s = elim (Bool-cases (str_eq from curr && not (has s.visited to))) [
  | inl e ↦ rw e (push-Grows s to)
  | inr e ↦ rw e (same-Grows s)
]

-- After the test for an edge that starts at the node, its other end has been visited.
follow-visits :
    (curr from to : String) (s : Search)
    → from ≡ curr
    → has (follow curr from to s).visited to ≡ true
unfolding follow
follow-visits curr from to s e = elim (Bool-cases (has s.visited to)) [
  | inl old ↦ rw (old, e, eq_refl curr) old
  | inr new ↦ rw (new, e, eq_refl curr) (has-add s.visited to to ∙ rw (new, eq_refl to) refl)
]

visit_edge-Grows : (curr : String) (e : Edge) (s : Search) → Grows s (visit_edge curr e s)
unfolding visit_edge
visit_edge-Grows curr e s =
    trans-Grows (follow-Grows curr (id_of e.source) (id_of e.target) s)
      (follow-Grows curr (id_of e.target) (id_of e.source) _)

visit_edges-Grows : (curr : String) (es : List Edge) (s : Search) → Grows s (visit_edges curr es s)
unfolding visit_edges
visit_edges-Grows curr [] s = same-Grows s
visit_edges-Grows curr (e ∷ es) s =
    trans-Grows (visit_edge-Grows curr e s) (visit_edges-Grows curr es (visit_edge curr e s))

visit_edges-visits :
    (curr b : String) (es : List Edge) (s : Search)
    → Joins es curr b
    → has (visit_edges curr es s).visited b ≡ true
unfolding visit_edges
visit_edges-visits curr b [] s j = absurd j
visit_edges-visits curr b (e ∷ es) s (inl (p, q)) =
    (visit_edges-Grows curr es (visit_edge curr e s)).keeps b (
      unfold visit_edge in
      (follow-Grows curr (id_of e.target) (id_of e.source) _).keeps b
        (rw (← q) (follow-visits curr (id_of e.source) (id_of e.target) s p)))
visit_edges-visits curr b (e ∷ es) s (inr (inl (p, q))) =
    (visit_edges-Grows curr es (visit_edge curr e s)).keeps b
      (unfold visit_edge in rw (← q) (follow-visits curr (id_of e.target) (id_of e.source) _ p))
visit_edges-visits curr b (e ∷ es) s (inr (inr j)) =
    visit_edges-visits curr b es (visit_edge curr e s) j

-- A visited node is in the queue, or all its neighbours have been visited.
abbrev pub IsClosed : List Edge → IdSet → List String → Type 0
IsClosed edges visited queue =
    (a : String)
    → has visited a ≡ true
    → (has queue a ≡ true) ⊎ ((b : String) → Joins edges a b → has visited b ≡ true)

turn-IsClosed :
    (edges : List Edge) (curr : String) (visited : IdSet) (queue : List String)
    → IsClosed edges visited (curr ∷ queue)
    → let t = visit_edges curr edges (record { visited = visited; queue = queue }) in
      IsClosed edges t.visited t.queue
unfolding has
turn-IsClosed edges curr visited queue h a m =
    let s : Search = record { visited = visited; queue = queue } in
    let g = visit_edges-Grows curr edges s in
    elim (g.queued a m) [
      | inr q ↦ inl q
      | inl v ↦ elim (h a v) [
        | inr all ↦ inr (λ b j. g.keeps b (all b j))
        | inl q ↦ elim (Bool-cases (str_eq curr a)) [
          | inl same ↦ inr (λ b j.
              visit_edges-visits curr b edges s
                (subst (λ x. Joins edges x b) (sym ((eq_iff curr a).0 same)) j))
          | inr other ↦ inl (g.waits a (ground arith))
        ]
      ]
    ]

pub search_loop-IsClosed :
    (edges : List Edge) (fuel : ℕ) (visited : IdSet) (queue : List String)
    → IsClosed edges visited queue
    → (result : IdSet) → search_loop fuel edges visited queue ≡ some result
    → IsClosed edges result [] × ((a : String) → has visited a ≡ true → has result a ≡ true)
unfolding search_loop
search_loop-IsClosed edges zero visited [] h result e =
    subst (λ r. IsClosed edges r [] × ((a : String) → has visited a ≡ true → has r a ≡ true)) (cc)
      (h, λ a m. m)
search_loop-IsClosed edges (suc fuel) visited [] h result e =
    subst (λ r. IsClosed edges r [] × ((a : String) → has visited a ≡ true → has r a ≡ true)) (cc)
      (h, λ a m. m)
search_loop-IsClosed edges zero visited (curr ∷ queue) h result e = absurd (ground arith)
search_loop-IsClosed edges (suc fuel) visited (curr ∷ queue) h result e =
    let s : Search = record { visited = visited; queue = queue } in
    let rest =
      search_loop-IsClosed edges fuel _ _ (turn-IsClosed edges curr visited queue h) result e in
    (rest.0, λ a m. rest.1 a ((visit_edges-Grows curr edges s).keeps a m))
