-- ===== src/Assets/NetworkMap/Graph.antt =====
-- The blast radius of soc-frontend/src/pages/assets/NetworkMapPage.tsx (`reachableNodes`): a search
-- from the selected node over the edges of the map, with a set and a queue.
pub mod Termination
pub mod Paths
mod Soundness
mod Completeness
pub mod Refinement
pub mod Components
use Prim.Native.String.{String}
use text.Mathlib.Text.{◌==◌ as str_eq}
use homelabs_siem_soar.Prelude.{
  ℕ, zero, suc, ◌+◌, ◌*◌, Bool, not, ◌&&◌, Option, none, some, List, [], ◌∷◌, ◌++◌, length,
  if◌then◌else◌,
}
use homelabs_siem_soar.Prelude.IdSet.{IdSet, has, add}

-- An end of an edge: the id of the reply, or the node that the force graph has put in its place.
pub data End : Type 0 where
  name : String → End
  node : String → End

-- `typeof e.source === 'object' ? e.source.id : e.source`.
abbrev pub id_of : End → String
id_of (name id) = id
id_of (node id) = id

pub record Edge : Type 0 where
  pub source : End
  pub target : End

pub record Search : Type 0 where
  pub visited : IdSet
  pub queue : List String

-- One of the two tests for an edge: `if (from === curr && !visited.has(to)) { … }`.
unfoldable pub follow : String → String → String → Search → Search
follow curr from to s =
    if str_eq from curr && not (has s.visited to)
    then record { visited = add s.visited to; queue = s.queue ++ to ∷ [] }
    else s

unfoldable pub visit_edge : String → Edge → Search → Search
unfolding follow
visit_edge curr e s =
    follow curr (id_of e.target) (id_of e.source) (follow curr (id_of e.source) (id_of e.target) s)

-- `data.edges.forEach(…)`.
unfoldable pub visit_edges : String → List Edge → Search → Search
unfolding visit_edge
visit_edges curr [] s = s
visit_edges curr (e ∷ es) s = visit_edges curr es (visit_edge curr e s)

-- The `while` loop, with fuel for its turns; `none` means that the fuel ran out.
unfoldable pub search_loop : ℕ → List Edge → IdSet → List String → Option IdSet
unfolding visit_edges
search_loop fuel edges visited [] = some visited
search_loop zero edges visited (curr ∷ queue) = none
search_loop (suc fuel) edges visited (curr ∷ queue) =
    let s = visit_edges curr edges (record { visited = visited; queue = queue }) in
    search_loop fuel edges s.visited s.queue

-- Each turn takes an id off the queue, and each edge puts at most two on it.
abbrev pub turns : List Edge → ℕ
turns edges = 2 * length edges + 1

unfoldable pub search_from : List Edge → String → Option IdSet
unfolding search_loop
search_from edges start = search_loop (turns edges) edges (start ∷ []) (start ∷ [])

abbrev pub found : Option IdSet → IdSet
found none = []
found (some visited) = visited

-- The set that the page colours by.
unfoldable pub blast_radius : List Edge → String → IdSet
unfolding search_from
blast_radius edges start = found (search_from edges start)
