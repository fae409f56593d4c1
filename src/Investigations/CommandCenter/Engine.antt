-- ===== src/Investigations/CommandCenter/Engine.antt =====
-- Which engine the command centre names.
use text.Mathlib.TextEquality.{eq_iff}
use homelabs_siem_soar.Prelude.{
  ℕ, ◌+◌, ◌≤◌, ◌<◌, ◌≡◌, refl, ap, ◌≢◌, true, false, none, some, List, [], ◌∷◌, ◌++◌, arith, All,
}
use homelabs_siem_soar.Investigations.CommandCenter.{
  AgentEvent, staleness_window_ms, latest_fallback, baseline, engine_of, engine,
}

abbrev NoFallback : List AgentEvent → Type 0
NoFallback = All (λ e. e.fallback_triggered ≡ false)

latest-none : (es : List AgentEvent) → NoFallback es → latest_fallback es ≡ none
unfolding latest_fallback
latest-none [] h = refl
latest-none (e ∷ es) h = rw (latest-none es h.1, h.0)

latest-append :
    (before later : List AgentEvent) (e : AgentEvent)
    → e.fallback_triggered ≡ true
    → NoFallback later
    → latest_fallback (before ++ e ∷ later) ≡ some e
unfolding latest_fallback
latest-append [] later e t h = rw (latest-none later h, t)
latest-append (b ∷ before) later e t h = rw (latest-append before later e t h)

-- The last event with a fallback decides, however many events follow it. Within ten minutes of its
-- receipt the page shows the static ruleset if the event names it, and else a degraded state with
-- the event's provider; after that, or if no event had a fallback, it shows the baseline.
engine_by_latest_fallback :
    (now : ℕ) (before later : List AgentEvent) (e : AgentEvent)
    → e.fallback_triggered ≡ true
    → All (λ d. d.fallback_triggered ≡ false) later
    → let shown = engine now (before ++ e ∷ later) in
      (e.received_at + staleness_window_ms < now → shown ≡ baseline)
      × (now ≤ e.received_at + staleness_window_ms
          → e.provider ≡ "static_ruleset"
          → (shown.is_degraded ≡ false)
            × (shown.fallback_rule_triggered ≡ true)
            × (shown.active_provider ≡ "Static Ruleset"))
      × (now ≤ e.received_at + staleness_window_ms
          → e.provider ≢ "static_ruleset"
          → (shown.is_degraded ≡ true)
            × (shown.fallback_rule_triggered ≡ false)
            × (shown.active_provider ≡ e.provider))
      × (engine now later ≡ baseline)
unfolding engine_of
engine_by_latest_fallback now before later e t h =
    let found : engine now (before ++ e ∷ later) ≡ engine_of now (some e) =
      unfold engine in ap (engine_of now) (latest-append before later e t h) in
    let nothing : engine now later ≡ baseline =
      unfold engine in ap (engine_of now) (latest-none later h) in
    rw found (
      λ late. ground arith,
      λ fresh static. ground (arith, eq_iff e.provider "static_ruleset"),
      λ fresh other. ground (arith, eq_iff e.provider "static_ruleset"),
      nothing,
    )
