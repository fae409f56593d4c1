-- ===== src/Assets/NetworkMap/Graph/Soundness.antt =====
-- The search visits only nodes that a path leads to.
use Prim.Native.String.{String}
use text.Mathlib.Text.{◌==◌ as str_eq}
use text.Mathlib.TextEquality.{eq_iff}
use text.Mathlib.TextPositions.{eq_refl}
use mathlib.Core.Path.{subst}
use homelabs_siem_soar.Prelude.{
  ℕ, zero, suc, ◌≡◌, refl, true, some, List, [], ◌∷◌, ◌++◌, arith, inl, inr, Bool-cases,
}
use homelabs_siem_soar.Prelude.IdSet.{IdSet, has, add, has-add, has-append}
use homelabs_siem_soar.Assets.NetworkMap.Graph.{
  Edge, id_of, Search, follow, visit_edge, visit_edges, search_loop,
}
use homelabs_siem_soar.Assets.NetworkMap.Graph.Paths.{Joins, Reaches, next}

-- Every id of a set has a property.
abbrev pub Each : (String → Type 0) → IdSet → Type 0
Each P ids = (id : String) → has ids id ≡ true → P id

Each-add : (P : String → Type 0) (ids : IdSet) (a : String) → Each P ids → P a → Each P (add ids a)
Each-add P ids a h p id m = elim (Bool-cases (str_eq a id)) [
  | inl same ↦ rw (← (eq_iff a id).0 same) p
  | inr other ↦ h id (ground (arith, has-add ids a id))
]

Each-push :
    (P : String → Type 0) (ids : List String) (a : String)
    → Each P ids
    → P a
    → Each P (ids ++ a ∷ [])
unfolding has
Each-push P ids a h p id m = elim (Bool-cases (str_eq a id)) [
  | inl same ↦ rw (← (eq_iff a id).0 same) p
  | inr other ↦ h id (ground (arith, has-append ids (a ∷ []) id))
]

-- Soundness: only ids that a path leads to are visited or queued.
module _ (P : String → Type 0) where
  abbrev Sound : Search → Type 0
  Sound s = Each P s.visited × Each P s.queue

  follow-Sound :
      (curr from to : String) (s : Search)
      → (from ≡ curr → P to)
      → Sound s
      → Sound (follow curr from to s)
  unfolding follow
  follow-Sound curr from to s p h = elim (Bool-cases (str_eq from curr)) [
    | inr other ↦ rw other h
    | inl same ↦ elim (Bool-cases (has s.visited to)) [
      | inl old ↦ rw (same, old) h
      | inr new ↦
          let q = p ((eq_iff from curr).0 same) in
          rw (same, new) (Each-add P s.visited to h.0 q, Each-push P s.queue to h.1 q)
    ]
  ]

  visit_edges-Sound :
      (curr : String) (es : List Edge) (s : Search)
      → ((b : String) → Joins es curr b → P b)
      → Sound s
      → Sound (visit_edges curr es s)
  unfolding visit_edges
  visit_edges-Sound curr [] s p h = h
  visit_edges-Sound curr (e ∷ es) s p h =
      visit_edges-Sound curr es (visit_edge curr e s) (λ b j. p b (inr (inr j)))
        (unfold visit_edge in
          follow-Sound curr (id_of e.target) (id_of e.source) _ (λ q. p _ (inr (inl (q, refl))))
            (follow-Sound curr (id_of e.source) (id_of e.target) s (λ q. p _ (inl (q, refl))) h))

pub search_loop-Sound :
    (edges : List Edge) (start : String) (fuel : ℕ) (visited : IdSet) (queue : List String)
    → Each (Reaches edges start) visited
    → Each (Reaches edges start) queue
    → (result : IdSet) → search_loop fuel edges visited queue ≡ some result
    → Each (Reaches edges start) result
unfolding search_loop has
search_loop-Sound edges start zero visited [] v q result e =
    subst (Each (Reaches edges start)) (cc) v
search_loop-Sound edges start (suc fuel) visited [] v q result e =
    subst (Each (Reaches edges start)) (cc) v
search_loop-Sound edges start zero visited (curr ∷ queue) v q result e = absurd (ground arith)
search_loop-Sound edges start (suc fuel) visited (curr ∷ queue) v q result e =
    let s : Search = record { visited = visited; queue = queue } in
    let reached = q curr (ground (arith, eq_refl curr)) in
    let rest : Each (Reaches edges start) queue = λ id m. q id (ground arith) in
    let sound =
      visit_edges-Sound (Reaches edges start) curr edges s (λ b j. next reached j) (v, rest) in
    search_loop-Sound edges start fuel _ _ sound.0 sound.1 result e
