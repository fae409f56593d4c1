-- ===== src/Incidents/Closed/Reviews.antt =====
-- The reviews of closed incidents.
use Prim.Native.String.{String}
use homelabs_siem_soar.Prelude.{ℕ, ◌≡◌, ◌≢◌, refl, true, eq-false_of_ne}
use homelabs_siem_soar.Incidents.Closed.{
  RawIncident, not_required, enhance, is_critical, Page, schedule_clicked,
}

-- An incident whose severity is "critical" only after `toLowerCase`, such as "CRITICAL", is shown as
-- critical, and the load says that it needs no review; so its row never offers one.
critical_review_skipped :
    (to_lower : String → String) (i : ℕ) (inc : RawIncident) (s : Page)
    → to_lower inc.severity ≡ "critical"
    → inc.severity ≢ "critical"
    → inc.severity ≢ "high"
    → (is_critical to_lower (enhance i inc) ≡ true)
      × ((enhance i inc).post_mortem_status ≡ not_required)
      × (schedule_clicked (enhance i inc) s ≡ s)
unfolding enhance schedule_clicked
critical_review_skipped to_lower i inc s l c h =
    rw (l, eq-false_of_ne _ _ c, eq-false_of_ne _ _ h) (refl, refl, refl)
