-- ===== src/Investigations/Context/Selection.antt =====
-- Which investigation the store shows beside which alert.
use homelabs_siem_soar.Prelude.{◌≡◌, refl, Option, none, some, [], ◌∷◌}
use homelabs_siem_soar.Investigations.Types.{Alert, InvestigationData}
use homelabs_siem_soar.Investigations.Context.{Context, viewed, view_ended, run}

-- With nothing else in flight, the alert that is viewed is selected and shows the investigation that
-- its own request brings, or none if that fails, never that of an earlier alert.
view_alone :
    (s : Context) (a : Alert) (r : Option InvestigationData)
    → s.viewing ≡ []
    → let t = run s (viewed a ∷ view_ended 0 r ∷ []) in
      (t.selected_alert ≡ some a) × (t.investigation ≡ r) × (t.viewing ≡ [])
unfolding run
view_alone s a none h = rw h (refl, refl, refl)
view_alone s a (some r) h = rw h (refl, refl, refl)

-- Two alerts viewed one after the other, whose replies arrive in the other order: the store ends
-- with the second alert selected beside the investigation of the first.
late_reply_shows_other :
    (s : Context) (a b : Alert) (ra rb : InvestigationData)
    → s.viewing ≡ []
    → let t = run s (viewed a ∷ viewed b ∷ view_ended 1 (some rb) ∷ view_ended 0 (some ra) ∷ []) in
      (t.selected_alert ≡ some b) × (t.investigation ≡ some ra) × (t.viewing ≡ [])
unfolding run
late_reply_shows_other s a b ra rb h = rw h (refl, refl, refl)
