-- ===== src/Endpoints/Isolation/Repeats.antt =====
-- What the isolation page sends again, or from the dialog before.
use text.Mathlib.TextPositions.{eq_refl}
use homelabs_siem_soar.Prelude.{◌≡◌, refl, ap, ◌∙◌, some, [], ◌∷◌, ℕ}
use homelabs_siem_soar.Endpoints.Isolation.{
  Host, isolate, Pending, post_isolate, Page, post_of, perform_with, opened, typed, hours_chosen,
  cancelled, execute_clicked, step, run,
}

enabled_click :
    (s : Page) (p : Pending)
    → s.pending_action ≡ some p
    → s.two_key_input ≡ p.host.hostname
    → step execute_clicked s ≡ perform_with (some p) s
unfolding step
enabled_click s p e h = rw (e, h, eq_refl) refl

-- The button stays enabled while its request is in flight: a second click sends the request again.
double_click_sends_twice :
    (s : Page) (p : Pending)
    → s.pending_action ≡ some p
    → s.two_key_input ≡ p.host.hostname
    → (run s (execute_clicked ∷ execute_clicked ∷ [])).posted
      ≡ post_of p.kind p.host s.auto_release_hours
        ∷ post_of p.kind p.host s.auto_release_hours
        ∷ s.posted
unfolding run
double_click_sends_twice s p e h =
    ap (λ t. (step execute_clicked t).posted) (enabled_click s p e h)
    ∙ ap (λ t. t.posted) (enabled_click (perform_with (some p) s) p e h)

-- Hours chosen for one host and then cancelled are sent with the isolation of the next host.
cancelled_hours_remain :
    (s : Page) (a b : Host) (hours : ℕ)
    → (run s (
        opened isolate a
        ∷ hours_chosen hours
        ∷ cancelled
        ∷ opened isolate b
        ∷ typed b.hostname
        ∷ execute_clicked
        ∷ [])).posted
      ≡ post_isolate b.id hours ∷ s.posted
unfolding run
cancelled_hours_remain s a b hours = rw eq_refl
