-- ===== src/Detection/ThreatFeeds/Sync.antt =====
-- The synchronisations that the page shows and those that are in flight.
use Prim.Native.String.{String}
use text.Mathlib.Text.{◌==◌ as str_eq}
use text.Mathlib.TextPositions.{eq_refl}
use homelabs_siem_soar.Prelude.{
  ℕ, zero, suc, ◌≡◌, ◌≢◌, refl, Bool, true, not, ◌&&◌, Option, none, some, List, [], ◌∷◌, ◌++◌, any,
  arith, get_elem?, Bool-cases, inl, inr, eq-false_of_ne,
}
use homelabs_siem_soar.Hooks.AsyncState.{Reply, screen}
use homelabs_siem_soar.Detection.ThreatFeeds.{
  RawFeed, Feed, Page, Failure, Outcome, succeeded, failed_with, Event, loading_begun, load_ended,
  sync_pressed, sync_replied, form_edited, form_shown, form_submitted, add_replied, errors_clicked,
  step, run, start, is_syncing, handle_sync, sync_clicked, sync_settled, sync_found, sync_ended,
  load_settled, load_counted, handle_add_feed, add_settled, add_ended, execute, is_content,
}

-- A synchronisation of a feed is in flight.
abbrev pub is_in_flight : String → List RawFeed → Bool
is_in_flight id syncs = any (λ f. str_eq f.id id) syncs

-- The feed whose button is disabled is being synchronised.
abbrev IsBusy : Page → Type 0
IsBusy s = (id : String) → s.syncing_id ≡ some id → is_in_flight id s.syncs ≡ true

any-push :
    (id : String) (xs : List RawFeed) (f : RawFeed)
    → f.id ≡ id
    → is_in_flight id (xs ++ f ∷ []) ≡ true
any-push id [] f e = rw (e, eq_refl id) refl
any-push id (x ∷ xs) f e = ground (arith, any-push id xs f e)

sync-IsBusy : (feed : RawFeed) (s : Page) → IsBusy s → IsBusy (sync_clicked feed s)
unfolding sync_clicked handle_sync
sync-IsBusy feed s h =
    elim (Bool-cases (is_content (screen s.table) && not (is_syncing s.syncing_id feed.id))) [
      | inl e ↦ rw e (λ id q. any-push id s.syncs feed (cc))
      | inr e ↦ rw e h
    ]

settled-IsBusy : (i : ℕ) (o : Outcome) (s : Page) → IsBusy s → IsBusy (sync_settled i o s)
unfolding sync_settled sync_found sync_ended
settled-IsBusy i o s h = found (get_elem? s.syncs i) o
  where
    found : (r : Option RawFeed) (o : Outcome) → IsBusy (sync_found r i o s)
    found none o = h
    found (some feed) succeeded = λ id q. cc
    found (some feed) (failed_with f) = λ id q. cc

load-IsBusy :
    (n : ℕ) (reply : Reply (List Feed)) (s : Page) → IsBusy s → IsBusy (load_counted n reply s)
unfolding load_counted
load-IsBusy zero reply s h = h
load-IsBusy (suc n) reply s h = h

add-IsBusy : (n : ℕ) (o : Outcome) (s : Page) → IsBusy s → IsBusy (add_ended n o s)
unfolding add_ended execute
add-IsBusy zero o s h = h
add-IsBusy (suc n) succeeded s h = h
add-IsBusy (suc n) (failed_with f) s h = h

step-IsBusy : (e : Event) (s : Page) → IsBusy s → IsBusy (step e s)
unfolding step execute load_settled handle_add_feed add_settled
step-IsBusy loading_begun s h = h
step-IsBusy (load_ended reply) s h = load-IsBusy s.loads reply s h
step-IsBusy (sync_pressed feed) s h = sync-IsBusy feed s h
step-IsBusy (sync_replied i o) s h = settled-IsBusy i o s h
step-IsBusy (form_edited feed) s h = h
step-IsBusy (form_shown value) s h = h
step-IsBusy form_submitted s h = h
step-IsBusy (add_replied o) s h = add-IsBusy s.adds o s h
step-IsBusy (errors_clicked id) s h = h

run-IsBusy : (s : Page) (es : List Event) → IsBusy s → IsBusy (run s es)
unfolding run
run-IsBusy s [] h = h
run-IsBusy s (e ∷ es) h = run-IsBusy (step e s) es (step-IsBusy e s h)

-- Whatever the events and their order, a feed whose button is disabled has a synchronisation in
-- flight.
pub disabled_button_is_busy :
    (es : List Event) (id : String)
    → (run start es).syncing_id ≡ some id
    → is_in_flight id (run start es).syncs ≡ true
unfolding start
disabled_button_is_busy es id = run-IsBusy start es (λ id q. cc) id

-- The converse fails. Two feeds are synchronised at once; the first one ends with a failure. The
-- button of the second one is enabled again, and a click on it starts a second synchronisation beside
-- the one that is in flight.
other_end_enables_button :
    (s : Page) (a b : RawFeed) (f : Failure)
    → is_content (screen s.table) ≡ true
    → s.syncs ≡ []
    → s.syncing_id ≡ none
    → a.id ≢ b.id
    → let t =
        run s (
          sync_pressed a ∷ sync_pressed b ∷ sync_replied 0 (failed_with f) ∷ sync_pressed b ∷ []) in
      t.syncs ≡ b ∷ b ∷ []
unfolding run step sync_clicked handle_sync sync_settled sync_found sync_ended
other_end_enables_button s a b f c e n ne =
    rw (e, n, c) (rw (eq-false_of_ne a.id b.id ne) (rw c (rw c refl)))
