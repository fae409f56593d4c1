-- ===== src/Investigations/Dashboard/Posts.antt =====
-- Which actions the dashboard posts, and to which investigation.
use Prim.Native.String.{String}
use homelabs_siem_soar.Prelude.{
  ℕ, ◌≡◌, refl, Bool, true, false, Option, none, some, List, [], ◌∷◌, filter_by, get_elem?, All,
  All-get, is_empty, inl, inr, Bool-cases,
}
use homelabs_siem_soar.Hooks.AsyncState.{Reply, ok, failed, screen, failure_or_content}
use homelabs_siem_soar.Investigations.Types.{ActionInfo}
use homelabs_siem_soar.Investigations.Dashboard.{
  set_id, load_settled, load_found, approve_clicked, approve_found, shows_cards, is_content,
  ended_found, retry, is_failure, start, Body, list_of, Page, Event, id_shown, load_ended,
  log_arrived, approve_pressed, approve_replied, retry_pressed, step, run,
}

module _ {ℓ} (P : ActionInfo → Type ℓ) where
  -- Every action that an event brings from the server has the property.
  abbrev pub Proposes : Event → Type ℓ
  Proposes (load_ended i (ok body)) = All P (list_of body.proposed_actions)
  Proposes _ = Unit {ℓ}

  -- The actions on the page and those that were posted have it.
  abbrev Inv : Page → Type ℓ
  Inv s = All P s.actions × All (λ p. P p.action) s.posts

  All-filter_by : (p : ActionInfo → Bool) (xs : List ActionInfo) → All P xs → All P (filter_by p xs)
  All-filter_by p [] h = h
  All-filter_by p (a ∷ xs) h = elim (Bool-cases (p a)) [
    | inl e ↦ rw e (h.0, All-filter_by p xs h.1)
    | inr e ↦ rw e (All-filter_by p xs h.1)
  ]

  shown-Inv : (id : Option String) (s : Page) → Inv s → Inv (set_id id s)
  unfolding set_id
  shown-Inv none s h = h
  shown-Inv (some id) s h = elim (Bool-cases (is_empty id)) [ inl e ↦ rw e h | inr e ↦ rw e h ]

  load-Inv :
      (o : Option (Option String)) (i : ℕ) (r : Reply Body) (s : Page)
      → Proposes (load_ended i r)
      → Inv s
      → Inv (load_found o i r s)
  unfolding load_found
  load-Inv none i r s n h = h
  load-Inv (some id) i (ok body) s n h = (n, h.1)
  load-Inv (some id) i (failed m) s n h = h

  found-Inv :
      (i : ℕ) (s : Page) (o : Option ActionInfo)
      → get_elem? s.actions i ≡ o
      → Inv s
      → Inv (approve_found o s)
  unfolding approve_found
  found-Inv i s none q h = h
  found-Inv i s (some a) q h = (h.0, (All-get P s.actions i h.0 q, h.1))

  pressed-Inv : (i : ℕ) (s : Page) → Inv s → Inv (approve_clicked i s)
  unfolding approve_clicked
  pressed-Inv i s h = elim (Bool-cases (shows_cards s)) [
    | inl e ↦ rw e (found-Inv i s (get_elem? s.actions i) refl h)
    | inr e ↦ rw e h
  ]

  ended-Inv :
      (o : Option ActionInfo) (i : ℕ) (success : Bool) (s : Page)
      → Inv s
      → Inv (ended_found o i success s)
  unfolding ended_found
  ended-Inv none i success s h = h
  ended-Inv (some a) i true s h = (All-filter_by _ s.actions h.0, h.1)
  ended-Inv (some a) i false s h = h

  retry-Inv : (s : Page) → Inv s → Inv (retry s)
  unfolding retry
  retry-Inv s h = elim (Bool-cases (is_failure (screen s.investigation))) [
    | inl e ↦ rw e h
    | inr e ↦ rw e h
  ]

  step-Inv : (e : Event) (s : Page) → Proposes e → Inv s → Inv (step e s)
  unfolding step
  step-Inv (id_shown id) s n h = shown-Inv id s h
  step-Inv (load_ended i r) s n h = load-Inv (get_elem? s.loads i) i r s n h
  step-Inv (log_arrived entry) s n h = h
  step-Inv (approve_pressed i) s n h = pressed-Inv i s h
  step-Inv (approve_replied i success) s n h = ended-Inv (get_elem? s.approvals i) i success s h
  step-Inv retry_pressed s n h = retry-Inv s h

  run-Inv : (s : Page) (es : List Event) → All Proposes es → Inv s → Inv (run s es)
  unfolding run
  run-Inv s [] n h = h
  run-Inv s (e ∷ es) n h = run-Inv (step e s) es n.1 (step-Inv e s n.0 h)

  -- Whatever holds of every action in every reply holds of every action that the page ever posts, for
  -- every sequence of events: the page posts nothing that was not proposed.
  pub only_proposed_are_posted :
      (es : List Event) → All Proposes es → All (λ p. P p.action) (run start es).posts
  unfolding start
  only_proposed_are_posted es n = (run-Inv start es n (tt, tt)).1

-- The id in the address changes while the page has an investigation and no load is in flight, and the load of the new one
-- fails. The page then shows the actions of the old investigation under the new id, and a click on
-- one of them posts it to the new investigation.
failed_load_mixes_sessions :
    (s : Page) (body : Body) (b : String) (i : ℕ) (a : ActionInfo) (message : Option String)
    → s.investigation.value ≡ some body
    → s.loads ≡ []
    → is_empty b ≡ false
    → get_elem? s.actions i ≡ some a
    → let failing = run s (id_shown (some b) ∷ load_ended 0 (failed message) ∷ []) in
      (failing.id ≡ some b)
      × (failing.actions ≡ s.actions)
      × (shows_cards failing ≡ true)
      × ((step (approve_pressed i) failing).posts
          ≡ record { session = some b; action = a } ∷ s.posts)
unfolding step run set_id load_settled load_found approve_clicked approve_found shows_cards
    is_content failure_or_content screen
failed_load_mixes_sessions s body b i a message v l e g = rw (e, l, v) (refl, refl, refl, rw g refl)
