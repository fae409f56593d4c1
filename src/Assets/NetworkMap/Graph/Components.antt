-- ===== src/Assets/NetworkMap/Graph/Components.antt =====
-- The blast radius as a set, and the parts that the map falls into.
use Prim.Native.String.{String}
use homelabs_siem_soar.Prelude.{◌≡◌, refl, sym, Bool, true, false, List}
use homelabs_siem_soar.Prelude.IdSet.{has}
use homelabs_siem_soar.Prelude.Members.{members, members_ext}
use homelabs_siem_soar.Assets.NetworkMap.Graph.{Edge, blast_radius}
use homelabs_siem_soar.Assets.NetworkMap.Graph.Paths.{Reaches}
use homelabs_siem_soar.Assets.NetworkMap.Graph.Refinement.{
  blast_radius-Reaches, Reaches-sym, Reaches-trans,
}

-- Two tests agree if each passes where the other does.
both_ways : (b c : Bool) → (b ≡ true → c ≡ true) → (c ≡ true → b ≡ true) → b ≡ c
both_ways true c f g = sym (f refl)
both_ways false true f g = g refl
both_ways false false f g = refl

-- A node that is in the radius of another has the same radius: as sets, the radii are the parts of the
-- map that are joined to each other by edges, whatever the direction of the edges.
pub one_radius_per_part :
    (edges : List Edge) (a b : String)
    → has (blast_radius edges a) b ≡ true
    → members (blast_radius edges b) ≡ members (blast_radius edges a)
one_radius_per_part edges a b h =
    let r : Reaches edges a b = ((blast_radius-Reaches edges a).0 b).0 h in
    members_ext (λ id.
      let at_a = (blast_radius-Reaches edges a).0 id in
      let at_b = (blast_radius-Reaches edges b).0 id in
      both_ways _ _ (λ m. at_a.1 (Reaches-trans edges a b id r (at_b.0 m)))
        (λ m. at_b.1 (Reaches-trans edges b a id (Reaches-sym edges a b r) (at_a.0 m))))
