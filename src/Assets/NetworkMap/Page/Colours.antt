-- ===== src/Assets/NetworkMap/Page/Colours.antt =====
-- The colours of a simulation.
use Prim.Native.String.{String}
use homelabs_siem_soar.Prelude.{
  ℕ, zero, suc, ◌≡◌, ◌∙◌, refl, sym, Bool, true, false, ◌&&◌, some, List, [], ◌∷◌, map, get_elem?,
  Bool-cases, inl, inr, if◌then◌else◌,
}
use homelabs_siem_soar.Prelude.IdSet.{has}
use homelabs_siem_soar.Assets.NetworkMap.{Node, Link, MapData}
use homelabs_siem_soar.Assets.NetworkMap.Graph.{Edge, id_of, blast_radius}
use homelabs_siem_soar.Assets.NetworkMap.Graph.Paths.{Joins, Reaches, here, next}
use homelabs_siem_soar.Assets.NetworkMap.Graph.Refinement.{blast_radius-Reaches, Joins-sym}
use homelabs_siem_soar.Assets.NetworkMap.Page.{
  Page, reachable_nodes, radius, edges_of, get_node_color, get_link_color,
}

Joins-get :
    (links : List Link) (i : ℕ) (l : Link)
    → get_elem? links i ≡ some l
    → Joins (map (λ x. x.raw.edge) links) (id_of l.raw.edge.source) (id_of l.raw.edge.target)
Joins-get [] i l h = cc
Joins-get (x ∷ links) zero l h = let e : x ≡ l = cc in rw e (inl (refl, refl))
Joins-get (x ∷ links) (suc i) l h = inr (inr (Joins-get links i l h))

has-step :
    (edges : List Edge) (start a b : String)
    → Joins edges a b
    → has (blast_radius edges start) a ≡ true
    → has (blast_radius edges start) b ≡ true
has-step edges start a b j m =
    let at = (blast_radius-Reaches edges start).0 in (at b).1 (next ((at a).0 m) j)

-- The two ends of an edge are both in the radius, or both outside.
has-ends :
    (edges : List Edge) (start a b : String)
    → Joins edges a b
    → has (blast_radius edges start) b ≡ has (blast_radius edges start) a
has-ends edges start a b j = elim (Bool-cases (has (blast_radius edges start) a)) [
  | inl m ↦ has-step edges start a b j m ∙ sym m
  | inr n ↦ elim (Bool-cases (has (blast_radius edges start) b)) [
    | inr k ↦ k ∙ sym n
    | inl m ↦ absurd (cc (has-step edges start b a (Joins-sym edges a b j) m, n))
  ]
]

not_reached :
    (edges : List Edge) (start id : String)
    → (Reaches edges start id → ⊥)
    → has (blast_radius edges start) id ≡ false
not_reached edges start id apart = elim (Bool-cases (has (blast_radius edges start) id)) [
  | inl h ↦ absurd (apart (((blast_radius-Reaches edges start).0 id).0 h))
  | inr h ↦ h
]

both-same : (b : Bool) (x y : String) → (if b && b then x else y) ≡ (if b then x else y)
both-same true x y = refl
both-same false x y = refl

-- During a simulation the selected node is in the radius, and a node that no path leads to is dimmed.
-- A link of the map has both ends in the radius or none, and is red if its source is in it and else
-- dimmed.
pub simulation_colours :
    (to_upper : String → String) (s : Page) (map_data : MapData) (node far : Node) (i : ℕ)
    (l : Link)
    → s.table.value ≡ some map_data
    → s.selected_node ≡ some node
    → s.simulating_path ≡ true
    → (Reaches (edges_of map_data) node.raw.id far.raw.id → ⊥)
    → get_elem? map_data.edges i ≡ some l
    → let source_in = has (reachable_nodes s) (id_of l.raw.edge.source) in
      (has (reachable_nodes s) node.raw.id ≡ true)
      × (get_node_color s far ≡ "rgba(30, 41, 59, 0.5)")
      × (has (reachable_nodes s) (id_of l.raw.edge.target) ≡ source_in)
      × (get_link_color to_upper s l ≡ (if source_in then "#ef4444" else "rgba(51, 65, 85, 0.2)"))
unfolding reachable_nodes radius get_node_color get_link_color
simulation_colours to_upper s map_data node far i l v n m apart e =
    let edges = edges_of map_data in
    let same = has-ends edges node.raw.id _ _ (Joins-get map_data.edges i l e) in
    (
      rw (m, n, v) (((blast_radius-Reaches edges node.raw.id).0 node.raw.id).1 here),
      rw (m, n, v, not_reached edges node.raw.id far.raw.id apart) refl,
      rw (m, n, v) same,
      rw (m, n, v, same)
          (both-same (has (blast_radius edges node.raw.id) (id_of l.raw.edge.source)) "#ef4444"
            "rgba(51, 65, 85, 0.2)"),
    )
