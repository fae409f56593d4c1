-- ===== src/Assets/NetworkMap/Findings.antt =====
-- Which findings the load attaches to a node.
use Prim.Native.String.{String}
use text.Mathlib.Text.{◌==◌ as str_eq}
use text.Mathlib.TextEquality.{eq_iff}
use homelabs_siem_soar.Prelude.{
  ℕ, ◌≤◌, ◌≡◌, ◌≢◌, ◌∙◌, refl, ap, sym, Bool, true, false, not, ◌&&◌, none, some, List, [], ◌∷◌,
  ◌++◌, any, arith, filter_by, All, get_elem?, is_empty, or_default-nil, or_default-full,
  if◌then◌else◌, inl, inr, Bool-cases,
}
use mathlib.Core.List.{append_assoc, append-nil}
use homelabs_siem_soar.Prelude.Sort.{sort_desc, All-sort, sort-IsDescending, IsDescending, sort-any}
use homelabs_siem_soar.Assets.NetworkMap.{
  Finding, RawNode, Index, key_of, push, findings_by_ip, lookup, node_key, enhance_node, risk_of,
  is_active,
}

-- The findings of a key, in the order of the reply.
abbrev pub of_node_key : String → List Finding → List Finding
of_node_key key = filter_by (λ f. not (is_empty (key_of f)) && str_eq (key_of f) key)

lookup-push :
    (key k : String) (f : Finding) (index : Index)
    → lookup key (push k f index) ≡ lookup key index ++ (if str_eq k key then f ∷ [] else [])
unfolding lookup push
lookup-push key k f [] = elim (Bool-cases (str_eq k key)) [ inl e ↦ rw e refl | inr e ↦ rw e refl ]
lookup-push key k f ((j, fs) ∷ index) = elim (Bool-cases (str_eq j k)) [
  | inl same ↦
      let e : k ≡ j = sym ((eq_iff j k).0 same) in
      rw (same, e)
        (elim (Bool-cases (str_eq j key)) [
          | inl m ↦ rw m refl
          | inr m ↦ rw m (sym (append-nil (lookup key index)))
        ])
  | inr other ↦ elim (Bool-cases (str_eq j key)) [
    | inl m ↦
        let off : str_eq k key ≡ false = ground (arith, eq_iff j k, eq_iff j key, eq_iff k key) in
        rw (other, m, off) (sym (append-nil fs))
    | inr m ↦ rw (other, m) (lookup-push key k f index)
  ]
]

lookup-findings :
    (key : String) (index : Index) (fs : List Finding)
    → lookup key (findings_by_ip index fs) ≡ lookup key index ++ of_node_key key fs
unfolding findings_by_ip
lookup-findings key index [] = sym (append-nil (lookup key index))
lookup-findings key index (f ∷ fs) = elim (Bool-cases (is_empty (key_of f))) [
  | inl e ↦ rw e (lookup-findings key index fs)
  | inr e ↦ rw e (
      lookup-findings key (push (key_of f) f index) fs
      ∙ ap (λ xs. xs ++ of_node_key key fs) (lookup-push key (key_of f) f index)
      ∙ split (lookup key index) (str_eq (key_of f) key))
]
  where
    split :
        (xs : List Finding) (b : Bool)
        → (xs ++ (if b then f ∷ [] else [])) ++ of_node_key key fs
          ≡ xs ++ (if b then f ∷ of_node_key key fs else of_node_key key fs)
    split xs true = append_assoc xs (f ∷ []) (of_node_key key fs)
    split xs false = ap (λ ys. ys ++ of_node_key key fs) (append-nil xs)

first-is-greatest :
    (random : ℕ) (fs : List Finding)
    → IsDescending (λ f. f.score) fs
    → All (λ f. f.score ≤ risk_of (get_elem? fs 0) random) fs
first-is-greatest random [] d = tt
first-is-greatest random (f ∷ fs) d = (omega arith, d.0)

-- A node has the findings whose key is its key, and no others, the highest score first; findings
-- without a key belong to no node. Its risk is at least each of their scores, and it has an active
-- alert exactly if one of them is open with a score of 50 or more.
pub node_findings_exact :
    (random : ℕ → ℕ) (fs : List Finding) (i : ℕ) (n : RawNode)
    → let e = enhance_node random (findings_by_ip [] fs) i n in
      (e.findings ≡ sort_desc (λ f. f.score) (of_node_key (node_key n) fs))
      × All (λ f. f.score ≤ e.risk_score) e.findings
      × (e.has_active_alert ≡ any is_active (of_node_key (node_key n) fs))
unfolding enhance_node lookup
node_findings_exact random fs i n = (
  ap (sort_desc (λ f. f.score)) (lookup-findings (node_key n) [] fs),
  first-is-greatest (random i) _ (sort-IsDescending (λ f. f.score) _),
  sort-any (λ f. f.score) is_active _ ∙ ap (any is_active) (lookup-findings (node_key n) [] fs),
)

of_node_key-keys :
    (key : String) (fs : List Finding) → All (λ f. key_of f ≡ key) (of_node_key key fs)
of_node_key-keys key [] = tt
of_node_key-keys key (f ∷ fs) =
    elim (Bool-cases (not (is_empty (key_of f)) && str_eq (key_of f) key)) [
      | inl e ↦ rw e ((eq_iff (key_of f) key).0 (ground arith), of_node_key-keys key fs)
      | inr e ↦ rw e (of_node_key-keys key fs)
    ]

All-map {ℓ} :
    {A : Type ℓ} (P Q : A → Type 0) (xs : List A) → ((a : A) → P a → Q a) → All P xs → All Q xs
All-map P Q [] f h = tt
All-map P Q (x ∷ xs) f h = (f x h.0, All-map P Q xs f h.1)

-- A finding that names only its endpoint is attached to no node that has an address besides its id,
-- not even to the node of that endpoint.
finding_by_endpoint_is_lost :
    (f : Finding) (n : RawNode) (ip : String)
    → f.source_ip ≡ none
    → f.endpoint_id ≡ some n.id
    → n.ip ≡ some ip
    → is_empty ip ≡ false
    → n.id ≢ ip
    → (random : ℕ → ℕ) (fs : List Finding) (i : ℕ)
    → All (λ g. g ≢ f) (enhance_node random (findings_by_ip [] fs) i n).findings
finding_by_endpoint_is_lost f n ip s e a full ne random fs i =
    rw ((node_findings_exact random fs i n).0) (
      All-sort (λ f. f.score) (λ g. g ≢ f) _
        (All-map (λ g. key_of g ≡ node_key n) (λ g. g ≢ f) _ apart
          (of_node_key-keys (node_key n) fs)))
  where
    key : key_of f ≡ n.id
    key = rw (s, e) (or_default-nil n.id)

    address : node_key n ≡ ip
    address = rw a (or_default-full ip n.id full)

    apart : (g : Finding) → key_of g ≡ node_key n → g ≢ f
    apart g k same = ne (sym key ∙ ap key_of (sym same) ∙ k ∙ address)
