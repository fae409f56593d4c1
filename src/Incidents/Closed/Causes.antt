-- ===== src/Incidents/Closed/Causes.antt =====
-- The counts of the root causes against the incidents.
use Prim.Native.String.{String}
use text.Mathlib.Text.{◌==◌ as str_eq}
use text.Mathlib.TextEquality.{eq_iff}
use homelabs_siem_soar.Prelude.{
  ℕ, ◌+◌, ◌≡◌, Bool, true, false, not, List, [], ◌∷◌, arith, count_by, sum_by, is_empty, Bool-cases,
  inl, inr, if◌then◌else◌,
}
use homelabs_siem_soar.Prelude.Sort.{IsDescending, sort-IsDescending, sum_by-sort}
use homelabs_siem_soar.Incidents.Closed.{
  Incident, Counts, count_cause, count_causes, root_cause_counts, top_root_causes,
}

-- The count of a cause, 0 if it has none.
abbrev pub count_of : String → Counts → ℕ
count_of cause [] = 0
count_of cause ((c, n) ∷ counts) = if str_eq c cause then n else count_of cause counts

count_of-count_cause :
    (cause c : String) (counts : Counts)
    → count_of cause (count_cause c counts)
      ≡ count_of cause counts + (if str_eq c cause then 1 else 0)
unfolding count_cause
count_of-count_cause cause c [] = ground (arith, eq_iff c cause)
count_of-count_cause cause c ((k, n) ∷ counts) =
    ground (arith, eq_iff k c, eq_iff k cause, eq_iff c cause, count_of-count_cause cause c counts)

sum-count_cause :
    (c : String) (counts : Counts)
    → sum_by (λ e. e.1) (count_cause c counts) ≡ sum_by (λ e. e.1) counts + 1
unfolding count_cause
sum-count_cause c [] = omega arith
sum-count_cause c ((k, n) ∷ counts) = ground (arith, sum-count_cause c counts)

abbrev pub has_cause : Incident → Bool
has_cause inc = not (is_empty inc.root_cause)

count_of-count_causes :
    (cause : String) (acc : Counts) (incs : List Incident)
    → is_empty cause ≡ false
    → count_of cause (count_causes acc incs)
      ≡ count_of cause acc + count_by (λ inc. str_eq inc.root_cause cause) incs
unfolding count_causes
count_of-count_causes cause acc [] h = omega arith
count_of-count_causes cause acc (inc ∷ incs) h = elim (Bool-cases (is_empty inc.root_cause)) [
  | inl e ↦
      let other : str_eq inc.root_cause cause ≡ false = apart inc.root_cause e in
      rw (e, other) (omega (arith, count_of-count_causes cause acc incs h))
  | inr e ↦ rw e (
      omega (
        arith,
        count_of-count_causes cause (count_cause inc.root_cause acc) incs h,
        count_of-count_cause cause inc.root_cause acc,
      ))
]
  where
    apart : (t : String) → is_empty t ≡ true → str_eq t cause ≡ false
    apart t e = elim (Bool-cases (str_eq t cause)) [
      | inr n ↦ n
      | inl m ↦ absurd (let same : t ≡ cause = (eq_iff t cause).0 m in cc)
    ]

sum-count_causes :
    (acc : Counts) (incs : List Incident)
    → sum_by (λ e. e.1) (count_causes acc incs) ≡ sum_by (λ e. e.1) acc + count_by has_cause incs
unfolding count_causes
sum-count_causes acc [] = omega arith
sum-count_causes acc (inc ∷ incs) = elim (Bool-cases (is_empty inc.root_cause)) [
  | inl e ↦ rw e (omega (arith, sum-count_causes acc incs))
  | inr e ↦ rw e (
      omega (
        arith,
        sum-count_causes (count_cause inc.root_cause acc) incs,
        sum-count_cause inc.root_cause acc,
      ))
]

-- The strip of root causes: before the sort, the count of a cause is the number of the incidents
-- that have it; the sort puts the greatest count first; and the counts shown add up to the number of
-- the incidents with a cause.
pub cause_counts_exact :
    (incs : List Incident) (cause : String)
    → is_empty cause ≡ false
    → (count_of cause (root_cause_counts incs) ≡ count_by (λ inc. str_eq inc.root_cause cause) incs)
      × IsDescending (λ e. e.1) (top_root_causes incs)
      × (sum_by (λ e. e.1) (top_root_causes incs) ≡ count_by has_cause incs)
unfolding top_root_causes root_cause_counts
cause_counts_exact incs cause h = (
  omega (arith, count_of-count_causes cause [] incs h),
  sort-IsDescending (λ e. e.1) (count_causes [] incs),
  omega (
    arith,
    sum_by-sort (λ (e : String × ℕ). e.1) (λ e. e.1) (count_causes [] incs),
    sum-count_causes [] incs,
  ),
)
