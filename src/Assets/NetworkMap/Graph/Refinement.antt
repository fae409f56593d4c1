-- ===== src/Assets/NetworkMap/Graph/Refinement.antt =====
-- The blast radius is the set of the nodes that a path leads to.
use Prim.Native.String.{String}
use text.Mathlib.Text.{◌==◌ as str_eq}
use text.Mathlib.TextEquality.{eq_iff}
use text.Mathlib.TextPositions.{eq_refl}
use mathlib.Core.Path.{subst}
use homelabs_siem_soar.Prelude.{
  ℕ, zero, suc, ◌≡◌, refl, ◌↔◌, true, not, ◌&&◌, List, [], ◌∷◌, arith, inl, inr, Bool-cases,
}
use homelabs_siem_soar.Prelude.IdSet.{IdSet, has, HasNoRepeats, HasNoRepeats-add}
use homelabs_siem_soar.Assets.NetworkMap.Graph.{
  Edge, id_of, Search, follow, visit_edge, visit_edges, search_loop, turns, search_from, found,
  blast_radius,
}
use homelabs_siem_soar.Assets.NetworkMap.Graph.Paths.{Joins, Reaches, here, next}
use homelabs_siem_soar.Assets.NetworkMap.Graph.Termination.{search_ends}
use homelabs_siem_soar.Assets.NetworkMap.Graph.Soundness.{Each, search_loop-Sound}
use homelabs_siem_soar.Assets.NetworkMap.Graph.Completeness.{IsClosed, search_loop-IsClosed}

follow-HasNoRepeats :
    (curr from to : String) (s : Search)
    → HasNoRepeats s.visited
    → HasNoRepeats (follow curr from to s).visited
unfolding follow
follow-HasNoRepeats curr from to s d =
    elim (Bool-cases (str_eq from curr && not (has s.visited to))) [
      | inl e ↦ rw e (HasNoRepeats-add s.visited to d)
      | inr e ↦ rw e d
    ]

visit_edges-HasNoRepeats :
    (curr : String) (es : List Edge) (s : Search)
    → HasNoRepeats s.visited
    → HasNoRepeats (visit_edges curr es s).visited
unfolding visit_edges visit_edge
visit_edges-HasNoRepeats curr [] s d = d
visit_edges-HasNoRepeats curr (e ∷ es) s d = visit_edges-HasNoRepeats curr es _ (
    follow-HasNoRepeats curr (id_of e.target) (id_of e.source) _
      (follow-HasNoRepeats curr (id_of e.source) (id_of e.target) s d))

search_loop-HasNoRepeats :
    (edges : List Edge) (fuel : ℕ) (visited : IdSet) (queue : List String)
    → HasNoRepeats visited
    → HasNoRepeats (found (search_loop fuel edges visited queue))
unfolding search_loop
search_loop-HasNoRepeats edges zero visited [] d = d
search_loop-HasNoRepeats edges (suc fuel) visited [] d = d
search_loop-HasNoRepeats edges zero visited (curr ∷ queue) d = tt
search_loop-HasNoRepeats edges (suc fuel) visited (curr ∷ queue) d =
    search_loop-HasNoRepeats edges fuel _ _ (visit_edges-HasNoRepeats curr edges _ d)

has-one : (a id : String) → has (a ∷ []) id ≡ true → a ≡ id
unfolding has
has-one a id m = (eq_iff a id).0 (ground arith)

IsClosed-Reaches :
    (edges : List Edge) (start : String) (result : IdSet)
    → has result start ≡ true
    → IsClosed edges result []
    → (id : String) → Reaches edges start id
    → has result id ≡ true
unfolding has
IsClosed-Reaches edges start result m c id here = m
IsClosed-Reaches edges start result m c id (next {a} r j) =
    elim (c a (IsClosed-Reaches edges start result m c a r)) [ inl q ↦ cc | inr all ↦ all id j ]

-- The search finds the nodes that a path of edges leads to from the selected node, each edge taken in
-- either direction, and no others, and it lists each of them once.
pub blast_radius-Reaches :
    (edges : List Edge) (start : String)
    → ((id : String) → (has (blast_radius edges start) id ≡ true) ↔ Reaches edges start id)
      × HasNoRepeats (blast_radius edges start)
unfolding blast_radius search_from
blast_radius-Reaches edges start =
    let (visited, e) = search_ends edges start in
    let one : Each (Reaches edges start) (start ∷ []) =
      λ id m. subst (Reaches edges start) (has-one start id m) here in
    let sound =
      search_loop-Sound edges start (turns edges) (start ∷ []) (start ∷ []) one one visited e in
    let closed =
      search_loop-IsClosed edges (turns edges) (start ∷ []) (start ∷ []) (λ a m. inl m) visited e in
    let first = closed.1 start (unfold has in ground (arith, eq_refl start)) in
    (
      rw e (λ id. (sound id, IsClosed-Reaches edges start visited first closed.0 id)),
      search_loop-HasNoRepeats edges (turns edges) (start ∷ []) (start ∷ [])
          (unfold has in (refl, tt)),
    )

pub Joins-sym : (edges : List Edge) (a b : String) → Joins edges a b → Joins edges b a
Joins-sym [] a b j = j
Joins-sym (e ∷ es) a b (inl (p, q)) = inr (inl (q, p))
Joins-sym (e ∷ es) a b (inr (inl (p, q))) = inl (q, p)
Joins-sym (e ∷ es) a b (inr (inr j)) = inr (inr (Joins-sym es a b j))

pub Reaches-trans :
    (edges : List Edge) (a b c : String) → Reaches edges a b → Reaches edges b c → Reaches edges a c
Reaches-trans edges a b c r here = r
Reaches-trans edges a b c r (next {a = x} q j) = next (Reaches-trans edges a b x r q) j

pub Reaches-sym : (edges : List Edge) (a b : String) → Reaches edges a b → Reaches edges b a
Reaches-sym edges a b here = here
Reaches-sym edges a b (next {a = x} r j) =
    Reaches-trans edges b x a (next here (Joins-sym edges x b j)) (Reaches-sym edges a x r)
