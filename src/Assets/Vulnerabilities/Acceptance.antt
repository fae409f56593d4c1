-- ===== src/Assets/Vulnerabilities/Acceptance.antt =====
-- What accepting a risk does to the table and to the counts above it.
use Prim.Native.String.{String}
use text.Mathlib.Text.{◌==◌ as str_eq}
use homelabs_siem_soar.Prelude.{
  ℕ, ◌+◌, ◌≡◌, ◌≤◌, refl, ap, true, false, some, List, [], ◌∷◌, map, arith, filter_by, All, trim,
  trim_start, trim_end, is_empty, inl, inr, Bool-cases,
}
use homelabs_siem_soar.Prelude.Sort.{IsDescending, sort-IsDescending}
use homelabs_siem_soar.Assets.Vulnerabilities.{
  Vulnerability, RawVulnerability, Page, accept_if, accept, accept_clicked, handle_accept_risk,
  overdue_count, active_exploit_count, rows_of, loaded,
}

abbrev IsByRisk : List Vulnerability → Type 0
IsByRisk vs = IsDescending (λ v. v.combined_risk_score) vs

risk-accept :
    (id : String) (v : Vulnerability) → (accept_if id v).combined_risk_score ≡ v.combined_risk_score
unfolding accept_if
risk-accept id v = elim (Bool-cases (str_eq v.raw.id id)) [ inl e ↦ rw e refl | inr e ↦ rw e refl ]

All-accept :
    (id : String) (k : ℕ) (vs : List Vulnerability)
    → All (λ v. v.combined_risk_score ≤ k) vs
    → All (λ v. v.combined_risk_score ≤ k) (map (accept_if id) vs)
All-accept id k [] h = tt
All-accept id k (v ∷ vs) h = (rw (risk-accept id v) h.0, All-accept id k vs h.1)

accept-IsByRisk :
    (id : String) (vs : List Vulnerability) → IsByRisk vs → IsByRisk (map (accept_if id) vs)
accept-IsByRisk id [] h = tt
accept-IsByRisk id (v ∷ vs) h =
    (rw (risk-accept id v) (All-accept id v.combined_risk_score vs h.0), accept-IsByRisk id vs h.1)

overdue_count-accept :
    (id : String) (vs : List Vulnerability)
    → overdue_count (map (accept_if id) vs) + overdue_count (filter_by (λ v. str_eq v.raw.id id) vs)
      ≡ overdue_count vs
unfolding overdue_count accept_if
overdue_count-accept id [] = omega arith
overdue_count-accept id (v ∷ vs) = elim (Bool-cases (str_eq v.raw.id id)) [
  | inl e ↦ rw e (ground (arith, overdue_count-accept id vs))
  | inr e ↦ rw e (ground (arith, overdue_count-accept id vs))
]

active_exploit_count-accept :
    (id : String) (vs : List Vulnerability)
    → active_exploit_count (map (accept_if id) vs) ≡ active_exploit_count vs
unfolding active_exploit_count accept_if
active_exploit_count-accept id [] = refl
active_exploit_count-accept id (v ∷ vs) = elim (Bool-cases (str_eq v.raw.id id)) [
  | inl e ↦ rw e (ground (arith, active_exploit_count-accept id vs))
  | inr e ↦ rw e (ground (arith, active_exploit_count-accept id vs))
]

full_of_trim : (t : String) → is_empty (trim t) ≡ false → is_empty t ≡ false
unfolding trim trim_start trim_end
full_of_trim String.[] h = h
full_of_trim (String.◌∷◌ c t) h = refl

accepted_table :
    (s : Page) (v : Vulnerability) (vs : List Vulnerability)
    → s.table.value ≡ some vs
    → s.control_modal ≡ some v
    → is_empty (trim s.justification) ≡ false
    → (accept_clicked s).table.value ≡ some (map (accept_if v.raw.id) vs)
unfolding accept_clicked handle_accept_risk accept
accepted_table s v vs t m b = rw b (
    rw m (
      rw (full_of_trim s.justification b)
        (ap (λ o. some (map (accept_if v.raw.id) (rows_of o))) t)))

-- A load shows the vulnerabilities by falling risk; a click that accepts the risk of one, which takes
-- a justification that is not blank, keeps that order, takes the rows with its id that were open and
-- overdue off the overdue count, and leaves the count of active exploitation as it was; a click with
-- a blank justification changes nothing.
accept_keeps_order :
    (risk : ℕ → RawVulnerability → ℕ) (s : Page) (raw : List RawVulnerability) (v : Vulnerability)
    (vs : List Vulnerability)
    → s.table.value ≡ some vs
    → s.control_modal ≡ some v
    → IsByRisk (loaded risk raw)
      × (is_empty (trim s.justification) ≡ true → accept_clicked s ≡ s)
      × (is_empty (trim s.justification) ≡ false
          → (IsByRisk vs → IsByRisk (rows_of (accept_clicked s).table.value))
            × (overdue_count (rows_of (accept_clicked s).table.value)
                  + overdue_count (filter_by (λ w. str_eq w.raw.id v.raw.id) vs)
                ≡ overdue_count vs)
            × (active_exploit_count (rows_of (accept_clicked s).table.value)
                ≡ active_exploit_count vs))
unfolding accept_clicked loaded
accept_keeps_order risk s raw v vs t m = (
  sort-IsDescending _ _,
  λ b. rw b refl,
  λ b. rw (accepted_table s v vs t m b) (
    accept-IsByRisk v.raw.id vs,
    overdue_count-accept v.raw.id vs,
    active_exploit_count-accept v.raw.id vs,
  ),
)
