-- ===== src/Investigations/Context/TwoKey.antt =====
-- Which actions the store sends for execution.
use mathlib.Core.Path.{subst}
use text.Mathlib.Text.{◌==◌ as str_eq}
use text.Mathlib.TextEquality.{eq_iff}
use homelabs_siem_soar.Prelude.{
  ◌≡◌, refl, eq-false_of_ne, ◌≢◌, ◌⊎◌, inl, inr, ℕ, zero, suc, Bool-cases, true, Option, none, some,
  List, [], ◌∷◌, trim, All,
}
use homelabs_siem_soar.Investigations.Types.{ActionInfo}
use homelabs_siem_soar.Investigations.Context.{
  closed, Modal, Context, start, needs_two_keys, handle_action_approve, confirm_with, ended,
  confirm_two_key_action, Event, fetched, alerts_ended, selected, viewed, view_ended, approved,
  modal_set, confirmed, execute_ended, step, run,
}

-- Every action that an event puts into the modal satisfies a predicate: an approved one with a risk that
-- needs two keys, and one that a use of `setTwoKeyModal` puts in the place of the action that is there.
abbrev Admits {ℓ} : (ActionInfo → Type ℓ) → Event → Type ℓ
Admits P (approved a) = needs_two_keys a.risk ≡ true → P a
Admits P (modal_set update) =
    (m : Modal) (a : ActionInfo) → (update m).action ≡ some a → (m.action ≡ some a) ⊎ P a
Admits P _ = Unit

module _ {ℓ} (P : ActionInfo → Type ℓ) where
  -- The action of the modal was admitted, and so was every action that was sent.
  record Inv (s : Context) : Type ℓ where
    modal : (a : ActionInfo) → s.two_key_modal.action ≡ some a → P a
    posted : All P s.executed

  -- With no action in the modal, the invariant is about what was sent.
  empty-Inv : (s : Context) → s.two_key_modal.action ≡ none → All P s.executed → Inv s
  empty-Inv s e h = record { modal = λ a e'. absurd (cc); posted = h }

  approve-Inv :
      (a : ActionInfo) (s : Context)
      → Admits P (approved a)
      → Inv s
      → Inv (handle_action_approve a s)
  unfolding handle_action_approve
  approve-Inv a s p v = elim (Bool-cases (needs_two_keys a.risk)) [
    | inl e ↦
        rw e (record {
          modal = λ b q. subst P (let same : a ≡ b = cc in same) (p e);
          posted = v.posted;
        })
    | inr e ↦ rw e v
  ]

  set-Inv :
      (update : Modal → Modal) (s : Context)
      → Admits P (modal_set update)
      → Inv s
      → Inv (step (modal_set update) s)
  unfolding step
  set-Inv update s p v = record {
    modal = λ a e. elim (p s.two_key_modal a e) [ inl old ↦ v.modal a old | inr new ↦ new ];
    posted = v.posted;
  }

  confirm-Inv : (s : Context) → Inv s → Inv (confirm_two_key_action s)
  unfolding confirm_two_key_action
  confirm-Inv s v = go s.two_key_modal.action refl
    where
      go :
          (o : Option ActionInfo)
          → s.two_key_modal.action ≡ o
          → Inv (confirm_with o s.two_key_modal.input s)
      go none e = empty-Inv _ refl v.posted
      go (some a) e = elim (Bool-cases (str_eq (trim s.two_key_modal.input) a.target)) [
        | inl m ↦ rw m (record { modal = v.modal; posted = (v.modal a e, v.posted) })
        | inr m ↦ rw m (empty-Inv _ refl v.posted)
      ]

  ended-Inv : (n : ℕ) (s : Context) → Inv s → Inv (ended n s)
  unfolding ended
  ended-Inv zero s v = v
  ended-Inv (suc n) s v = empty-Inv _ refl v.posted

  step-Inv : (e : Event) (s : Context) → Admits P e → Inv s → Inv (step e s)
  unfolding step
  step-Inv fetched s p v = record { modal = v.modal; posted = v.posted }
  step-Inv (alerts_ended none) s p v = record { modal = v.modal; posted = v.posted }
  step-Inv (alerts_ended (some r)) s p v = record { modal = v.modal; posted = v.posted }
  step-Inv (selected a) s p v = record { modal = v.modal; posted = v.posted }
  step-Inv (viewed a) s p v = record { modal = v.modal; posted = v.posted }
  step-Inv (view_ended i none) s p v = record { modal = v.modal; posted = v.posted }
  step-Inv (view_ended i (some r)) s p v = record { modal = v.modal; posted = v.posted }
  step-Inv (approved a) s p v = approve-Inv a s p v
  step-Inv (modal_set update) s p v = set-Inv update s p v
  step-Inv confirmed s p v = confirm-Inv s v
  step-Inv execute_ended s p v = ended-Inv s.executing s v

  run-Inv : (es : List Event) (s : Context) → All (Admits P) es → Inv s → Inv (run s es)
  unfolding run
  run-Inv [] s p v = v
  run-Inv (e ∷ es) s p v = run-Inv es (step e s) p.1 (step-Inv e s p.0 v)

  -- Whatever the events and their order, every action that was sent for execution is one that was
  -- approved with a risk that is destructive or of high impact, or one that a use of `setTwoKeyModal`
  -- put into the modal: `P` stands for any set of actions that holds all of these. A use that keeps the
  -- action of the modal, whatever it is, or takes it out, asks nothing of `P`, and neither does the
  -- approval of an action of lower risk.
  pub executed_were_approved : (es : List Event) → All (Admits P) es → All P (run start es).executed
  unfolding start
  executed_were_approved es p = (run-Inv es _ p (empty-Inv _ refl tt)).posted

-- A confirmation sends the action of the modal exactly if the text, trimmed, is its target, and then
-- it leaves the modal open until the request ends; else it sends nothing and closes the modal.
confirm_exact :
    (s : Context) (a : ActionInfo)
    → s.two_key_modal.action ≡ some a
    → (trim s.two_key_modal.input ≡ a.target
        → ((confirm_two_key_action s).executed ≡ a ∷ s.executed)
          × ((confirm_two_key_action s).two_key_modal ≡ s.two_key_modal))
      × (trim s.two_key_modal.input ≢ a.target
          → ((confirm_two_key_action s).executed ≡ s.executed)
            × ((confirm_two_key_action s).two_key_modal ≡ closed))
unfolding confirm_two_key_action
confirm_exact s a e = (
  λ h. rw (e, confirm_with, (eq_iff _ _).1 h) (refl, refl),
  λ h. rw (e, confirm_with, eq-false_of_ne _ _ h) (refl, refl),
)
