-- ===== src/Assets/NetworkMap/Graph/Termination.antt =====
-- The search ends: every turn makes one number smaller, and the fuel is enough for it.
use Prim.Native.String.{String}
use text.Mathlib.Text.{◌==◌ as str_eq}
use text.Mathlib.TextEquality.{eq_iff}
use text.Mathlib.TextPositions.{eq_refl}
use homelabs_siem_soar.Prelude.{
  ℕ, zero, suc, ◌+◌, ◌*◌, ◌≤◌, ◌≡◌, ◌∙◌, refl, true, false, not, some, List, [], ◌∷◌, arith, length,
  length-append, count_by, inl, inr, Bool-cases,
}
use homelabs_siem_soar.Prelude.IdSet.{IdSet, has, add, has-add}
use homelabs_siem_soar.Assets.NetworkMap.Graph.{
  Edge, id_of, Search, follow, visit_edge, visit_edges, search_loop, turns, search_from,
}

-- The ids at the ends of the edges.
abbrev pub ends : List Edge → List String
ends [] = []
ends (e ∷ es) = id_of e.source ∷ id_of e.target ∷ ends es

-- How many of some ids have not been visited.
abbrev unvisited : List String → IdSet → ℕ
unvisited ids visited = count_by (λ id. not (has visited id)) ids

-- What is left to do: the queue, and the ends that have not been visited.
abbrev measure : List String → Search → ℕ
measure ids s = unvisited ids s.visited + length s.queue

unvisited-add-le :
    (ids : List String) (visited : IdSet) (a : String)
    → unvisited ids (add visited a) ≤ unvisited ids visited
unvisited-add-le [] visited a = omega arith
unvisited-add-le (x ∷ ids) visited a =
    ground (arith, unvisited-add-le ids visited a, has-add visited a x)

unvisited-add-lt :
    (ids : List String) (visited : IdSet) (a : String)
    → has ids a ≡ true
    → has visited a ≡ false
    → unvisited ids (add visited a) + 1 ≤ unvisited ids visited
unfolding has
unvisited-add-lt [] visited a h n = ground arith
unvisited-add-lt (x ∷ ids) visited a h n = elim (Bool-cases (str_eq x a)) [
  | inl same ↦
      let fresh : has visited x ≡ false = rw ((eq_iff x a).0 same) n in
      let added : has (add visited a) x ≡ true =
        has-add visited a x ∙ rw (fresh, (eq_iff x a).0 same, eq_refl) refl in
      rw (fresh, added) (omega (arith, unvisited-add-le ids visited a))
  | inr other ↦
      let rest = unvisited-add-lt ids visited a (rw other at h) n in
      ground (arith, has-add visited a x, eq_iff a x, eq_iff x a)
]

follow-measure :
    (ids : List String) (curr from to : String) (s : Search)
    → has ids to ≡ true
    → measure ids (follow curr from to s) ≤ measure ids s
unfolding follow
follow-measure ids curr from to s h =
    ground (arith, unvisited-add-lt ids s.visited to h, length-append s.queue (to ∷ []))

-- The ids that an edge list names are among some ids.
abbrev EndsIn : List String → List Edge → Type 0
EndsIn ids [] = Unit
EndsIn ids (e ∷ es) =
    (has ids (id_of e.source) ≡ true) × (has ids (id_of e.target) ≡ true) × EndsIn ids es

visit_edges-measure :
    (ids : List String) (curr : String) (es : List Edge) (s : Search)
    → EndsIn ids es
    → measure ids (visit_edges curr es s) ≤ measure ids s
unfolding visit_edges
visit_edges-measure ids curr [] s h = omega arith
visit_edges-measure ids curr (e ∷ es) s h =
    let first = follow curr (id_of e.source) (id_of e.target) s in
    omega (
      arith,
      follow-measure ids curr (id_of e.source) (id_of e.target) s h.1,
      follow-measure ids curr (id_of e.target) (id_of e.source) first h.0,
      visit_edges-measure ids curr es (visit_edge curr e s) h.2,
    )

search_loop-ends :
    (ids : List String) (edges : List Edge)
    → EndsIn ids edges
    → (fuel : ℕ) (visited : IdSet) (queue : List String)
    → unvisited ids visited + length queue ≤ fuel
    → (result : IdSet) × (search_loop fuel edges visited queue ≡ some result)
unfolding search_loop
search_loop-ends ids edges h zero visited [] m = (visited, refl)
search_loop-ends ids edges h (suc fuel) visited [] m = (visited, refl)
search_loop-ends ids edges h zero visited (curr ∷ queue) m = absurd (omega arith)
search_loop-ends ids edges h (suc fuel) visited (curr ∷ queue) m =
    let s : Search = record { visited = visited; queue = queue } in
    let t = visit_edges curr edges s in
    search_loop-ends ids edges h fuel t.visited t.queue
      (omega (arith, visit_edges-measure ids curr edges s h))

EndsIn-cons :
    (ids : List String) (a : String) (es : List Edge) → EndsIn ids es → EndsIn (a ∷ ids) es
unfolding has
EndsIn-cons ids a [] h = tt
EndsIn-cons ids a (e ∷ es) h = (ground (arith, h.0), ground (arith, h.1), EndsIn-cons ids a es h.2)

ends-EndsIn : (es : List Edge) → EndsIn (ends es) es
unfolding has
ends-EndsIn [] = tt
ends-EndsIn (e ∷ es) = (
  ground (arith, eq_refl (id_of e.source)),
  ground (arith, eq_refl (id_of e.target)),
  EndsIn-cons (id_of e.target ∷ ends es) (id_of e.source) es
      (EndsIn-cons (ends es) (id_of e.target) es (ends-EndsIn es)),
)

length-ends : (es : List Edge) → length (ends es) ≡ 2 * length es
length-ends [] = refl
length-ends (e ∷ es) = omega (arith, length-ends es)

unvisited-le : (ids : List String) (visited : IdSet) → unvisited ids visited ≤ length ids
unvisited-le [] visited = omega arith
unvisited-le (x ∷ ids) visited = ground (arith, unvisited-le ids visited)

-- The search from any node, over any edges, ends with a result: its loop makes at most two turns for
-- each edge and one for the node.
pub search_ends :
    (edges : List Edge) (start : String)
    → (visited : IdSet) × (search_from edges start ≡ some visited)
unfolding search_from
search_ends edges start =
    search_loop-ends (ends edges) edges (ends-EndsIn edges) (turns edges) (start ∷ []) (start ∷ [])
      (omega (arith, length-ends edges, unvisited-le (ends edges) (start ∷ [])))
