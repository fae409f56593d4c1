-- ===== src/Endpoints/Fleet/Tabs.antt =====
-- The number on a filter pill against the rows that its tab shows.
use Prim.Native.String.{String}
use homelabs_siem_soar.Prelude.{
  ◌≡◌, ◌≤◌, refl, ap, sym, ◌∙◌, Bool, true, ◌&&◌, some, List, [], ◌∷◌, arith, length, filter_by,
  is_empty, trim,
}
use homelabs_siem_soar.Endpoints.Fleet.{
  Host, ViewFilter, all_fleet, out_of_compliance, tier_1_only, paas_only, iaas_only, tunnel_only,
  matches_filter, matches_search, tab_count, filtered,
}

filter_by-cong :
    (p q : Host → Bool)
    → ((h : Host) → p h ≡ q h)
    → (hs : List Host) → filter_by p hs ≡ filter_by q hs
filter_by-cong p q e [] = refl
filter_by-cong p q e (h ∷ hs) = rw (e h, filter_by-cong p q e hs) refl

filter_by-all : (hs : List Host) → filter_by (λ h. true) hs ≡ hs
filter_by-all [] = refl
filter_by-all (h ∷ hs) = ap (λ t. h ∷ t) (filter_by-all hs)

length-filter_by :
    (p q : Host → Bool) (hs : List Host)
    → length (filter_by (λ h. p h && q h) hs) ≤ length (filter_by p hs)
length-filter_by p q [] = omega arith
length-filter_by p q (h ∷ hs) = ground (arith, length-filter_by p q hs)

tab_count-filter :
    (view : ViewFilter) (hs : List Host)
    → tab_count view hs ≡ length (filter_by (matches_filter view) hs)
unfolding tab_count matches_filter
tab_count-filter all_fleet hs = ap length (sym (filter_by-all hs))
tab_count-filter out_of_compliance hs = refl
tab_count-filter tier_1_only hs = refl
tab_count-filter paas_only hs = refl
tab_count-filter iaas_only hs = refl
tab_count-filter tunnel_only hs = refl

-- The number on a filter pill is the number of rows under its tab when the search text is blank, and
-- an upper bound for them under every search text.
tab_counts_rows :
    (lower : String → String) (view : ViewFilter) (term : String) (hs : List Host)
    → (is_empty (trim (lower term)) ≡ true
        → length (filtered lower view term (some hs)) ≡ tab_count view hs)
      × (length (filtered lower view term (some hs)) ≤ tab_count view hs)
unfolding filtered matches_search
tab_counts_rows lower view term hs = (
  λ b.
      ap length (
        filter_by-cong (λ h. matches_filter view h && matches_search lower term h)
          (matches_filter view) (λ h. rw b (ground arith)) hs)
      ∙ sym (tab_count-filter view hs),
  omega (
    arith,
    length-filter_by (matches_filter view) (matches_search lower term) hs,
    tab_count-filter view hs,
  ),
)
