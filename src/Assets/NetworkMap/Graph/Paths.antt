-- ===== src/Assets/NetworkMap/Graph/Paths.antt =====
-- The specification of the blast radius: the nodes that a path of edges, each taken in either
-- direction, leads to.
use Prim.Native.String.{String}
use homelabs_siem_soar.Prelude.{◌≡◌, ◌⊎◌, List, [], ◌∷◌}
use homelabs_siem_soar.Assets.NetworkMap.Graph.{Edge, id_of}

-- An edge of the list joins the two ids.
abbrev pub Joins : List Edge → String → String → Type 0
Joins [] a b = ⊥
Joins (e ∷ es) a b =
    ((id_of e.source ≡ a) × (id_of e.target ≡ b))
    ⊎ ((id_of e.target ≡ a) × (id_of e.source ≡ b))
    ⊎ Joins es a b

pub data Reaches (edges : List Edge) (start : String) : String → Type 0 where
  here : Reaches edges start start
  next : {a b : String} → Reaches edges start a → Joins edges a b → Reaches edges start b
