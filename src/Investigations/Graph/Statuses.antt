-- ===== src/Investigations/Graph/Statuses.antt =====
-- The status that the graph shows for a node.
use Prim.Native.String.{String}
use text.Mathlib.Text.{◌==◌ as str_eq}
use text.Mathlib.TextEquality.{eq_iff}
use homelabs_siem_soar.Prelude.{
  ◌≡◌, ◌∙◌, refl, ap, Option, none, some, List, [], ◌∷◌, arith, if◌then◌else◌,
}
use homelabs_siem_soar.Investigations.Types.{NodeStatus}
use homelabs_siem_soar.Investigations.Graph.{Node, Update, apply_update, apply_batch}

-- The status of the first node with an id.
unfoldable pub status_of : String → List Node → Option NodeStatus
status_of id [] = none
status_of id (n ∷ nodes) = if str_eq n.id id then some n.status else status_of id nodes

-- The status in the last update for an id, or else a given one.
unfoldable pub latest : String → Option NodeStatus → List Update → Option NodeStatus
latest id status [] = status
latest id status (u ∷ us) = latest id (if str_eq u.node_id id then some u.status else status) us

status_of-apply_update :
    (id : String) (u : Update) (nodes : List Node)
    → status_of id (apply_update u nodes)
      ≡ (if str_eq u.node_id id then some u.status else status_of id nodes)
unfolding status_of apply_update
status_of-apply_update id u [] = refl
status_of-apply_update id u (n ∷ nodes) = ground (
  arith,
  eq_iff n.id u.node_id,
  eq_iff n.id id,
  eq_iff u.node_id id,
  status_of-apply_update id u nodes,
)

-- After a batch the status of a node is that of the last update for its id; a node with none keeps the
-- status that it had, and an id that was not there is there exactly if an update names it.
pub status_is_latest :
    (id : String) (nodes : List Node) (us : List Update)
    → status_of id (apply_batch nodes us) ≡ latest id (status_of id nodes) us
unfolding apply_batch latest
status_is_latest id nodes [] = refl
status_is_latest id nodes (u ∷ us) =
    status_is_latest id (apply_update u nodes) us
    ∙ ap (λ o. latest id o us) (status_of-apply_update id u nodes)
