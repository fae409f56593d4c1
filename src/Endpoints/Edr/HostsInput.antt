-- ===== src/Endpoints/Edr/HostsInput.antt =====
-- The text field of the hosts, which shows what it parsed.
use Prim.Native.Char.{code}
use Prim.Native.String.{String, ◌++◌ as str_append}
use text.Mathlib.TextLemmas.{nil-append, cons-append, append-nil, append_assoc}
use homelabs_siem_soar.Prelude.{
  ℕ, ◌≡◌, refl, sym, ap, ◌∙◌, Bool, false, not, ◌||◌, ◌==◌, List, [], ◌∷◌, map, filter_by, split_at,
  join, trim, All, arith, is_empty, inl, inr, Bool-cases, onto_first,
}
use homelabs_siem_soar.Endpoints.Edr.{hosts_of, shown_hosts}

-- A text has a character of a code.
abbrev has_code : ℕ → String → Bool
has_code sep String.[] = false
has_code sep (String.◌∷◌ c s) = code c == sep || has_code sep s

split_at-whole : (sep : ℕ) (s : String) → has_code sep s ≡ false → split_at sep s ≡ s ∷ []
unfolding split_at
split_at-whole sep String.[] h = refl
split_at-whole sep (String.◌∷◌ c s) h = elim (Bool-cases (code c == sep)) [
  | inl e ↦ ground arith
  | inr e ↦ rw e (ap (onto_first c) (split_at-whole sep s (ground arith)))
]

split_at-comma : (t : String) → split_at 44 (str_append "," t) ≡ "" ∷ split_at 44 t
unfolding split_at
split_at-comma t =
    ap (split_at 44) (cons-append "," "" t ∙ ap (λ u. String.◌∷◌ "," u) (nil-append t))

split_at-append :
    (s t : String)
    → has_code 44 s ≡ false
    → split_at 44 (str_append s (str_append "," t)) ≡ s ∷ split_at 44 t
unfolding split_at
split_at-append String.[] t h = ap (split_at 44) (nil-append (str_append "," t)) ∙ split_at-comma t
split_at-append (String.◌∷◌ c s) t h =
    ap (split_at 44) (cons-append c s (str_append "," t)) ∙ elim (Bool-cases (code c == 44)) [
      | inl e ↦ ground arith
      | inr e ↦ rw e (ap (onto_first c) (split_at-append s t (ground arith)))
    ]

-- A host as the field keeps it: not empty, with no comma and no white space at its ends.
pub record IsClean (h : String) : Type 0 where
  pub not_empty : is_empty h ≡ false
  pub no_comma : has_code 44 h ≡ false
  pub trimmed : trim h ≡ h

-- The parts that `hosts_of` keeps.
abbrev kept : List String → List String
kept parts = filter_by (λ g. not (is_empty g)) (map trim parts)

kept-clean : (h : String) (parts : List String) → IsClean h → kept (h ∷ parts) ≡ h ∷ kept parts
kept-clean h parts v = rw v.trimmed (rw v.not_empty refl)

hosts_of-cons :
    (h t : String) → IsClean h → hosts_of (str_append h (str_append "," t)) ≡ h ∷ hosts_of t
unfolding hosts_of
hosts_of-cons h t v = ap kept (split_at-append h t v.no_comma) ∙ kept-clean h (split_at 44 t) v

hosts_of-one : (h : String) → IsClean h → hosts_of h ≡ h ∷ []
unfolding hosts_of
hosts_of-one h v = ap kept (split_at-whole 44 h v.no_comma) ∙ kept-clean h [] v

hosts_of-lone_comma : hosts_of (str_append "" ",") ≡ []
unfolding hosts_of split_at trim
hosts_of-lone_comma = refl

hosts_of-blank : hosts_of "" ≡ []
unfolding hosts_of split_at trim
hosts_of-blank = refl

hosts_of-shown : (hs : List String) → All IsClean hs → hosts_of (shown_hosts hs) ≡ hs
unfolding shown_hosts join
hosts_of-shown [] v = hosts_of-blank
hosts_of-shown (h ∷ []) v = hosts_of-one h v.0
hosts_of-shown (h ∷ g ∷ hs) v =
    hosts_of-cons h (join "," (g ∷ hs)) v.0 ∙ ap (λ t. h ∷ t) (hosts_of-shown (g ∷ hs) v.1)

hosts_of-comma :
    (hs : List String) → All IsClean hs → hosts_of (str_append (shown_hosts hs) ",") ≡ hs
unfolding shown_hosts join
hosts_of-comma [] v = hosts_of-lone_comma
hosts_of-comma (h ∷ []) v =
    ap (λ t. hosts_of (str_append h t)) (sym (append-nil ","))
    ∙ hosts_of-cons h "" v.0
    ∙ ap (λ t. h ∷ t) hosts_of-blank
hosts_of-comma (h ∷ g ∷ hs) v =
    ap hosts_of (append_assoc h (str_append "," (join "," (g ∷ hs))) ",")
    ∙ ap (λ t. hosts_of (str_append h t)) (append_assoc "," (join "," (g ∷ hs)) ",")
    ∙ hosts_of-cons h (str_append (join "," (g ∷ hs)) ",") v.0
    ∙ ap (λ t. h ∷ t) (hosts_of-comma (g ∷ hs) v.1)

-- For hosts that are not empty and hold no comma and no white space at their ends, the text that the
-- field shows for them is read back as the same hosts; and a comma typed at its end is read back as
-- the same hosts too, so the field shows the text without it.
pub comma_is_swallowed :
    (hs : List String)
    → All IsClean hs
    → (hosts_of (shown_hosts hs) ≡ hs)
      × (hosts_of (str_append (shown_hosts hs) ",") ≡ hs)
      × (shown_hosts (hosts_of (str_append (shown_hosts hs) ",")) ≡ shown_hosts hs)
comma_is_swallowed hs v =
    (hosts_of-shown hs v, hosts_of-comma hs v, ap shown_hosts (hosts_of-comma hs v))
