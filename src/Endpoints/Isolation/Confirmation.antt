-- ===== src/Endpoints/Isolation/Confirmation.antt =====
-- What the isolation page sends, and after what input.
use Prim.Native.String.{String}
use text.Mathlib.Text.{◌==◌ as str_eq}
use text.Mathlib.TextEquality.{eq_iff}
use mathlib.Core.Path.{subst}
use mathlib.Core.List.{Memᴰ}
use homelabs_siem_soar.Prelude.{
  ℕ, ◌≡◌, refl, ◌⊎◌, inl, inr, Bool, true, false, Option, none, some, List, [], ◌∷◌, All, get_elem?,
  remove_at, arith, if◌then◌else◌, Bool-cases,
}
use homelabs_siem_soar.Endpoints.Isolation.{
  Host, Kind, isolate, release, Pending, Post, post_isolate, post_release, Page, start, post_of,
  can_execute, perform_with, succeeded, settle_with, action_settled, Event, replied, opened, typed,
  hours_chosen, cancelled, execute_clicked, ended, done, step, run,
}

-- What an event may have been, for the fields of the dialog: each starts out empty.
module _ (Happened : Event → Type 0) where
  abbrev IsTyped : String → Type 0
  IsTyped text = (text ≡ "") ⊎ Happened (typed text)

  abbrev IsChosen : ℕ → Type 0
  IsChosen hours = (hours ≡ 0) ⊎ Happened (hours_chosen hours)

  -- The dialog for the request was opened, the name of its host was typed, and its hours were chosen.
  abbrev pub IsOrdered : Post → Type 0
  IsOrdered (post_isolate id hours) =
      (host : Host) × (host.id ≡ id)
      × Happened (opened isolate host)
      × IsTyped host.hostname
      × IsChosen hours
  IsOrdered (post_release id) =
      (host : Host) × (host.id ≡ id) × Happened (opened release host) × IsTyped host.hostname

  record Inv (s : Page) : Type 0 where
    pending : (p : Pending) → s.pending_action ≡ some p → Happened (opened p.kind p.host)
    text : IsTyped s.two_key_input
    hours : IsChosen s.auto_release_hours
    posted : All IsOrdered s.posted

  post_of-IsOrdered :
      (kind : Kind) (host : Host) (hours : ℕ)
      → Happened (opened kind host)
      → IsTyped host.hostname
      → IsChosen hours
      → IsOrdered (post_of kind host hours)
  unfolding post_of
  post_of-IsOrdered isolate host hours o t c = (host, refl, o, t, c)
  post_of-IsOrdered release host hours o t c = (host, refl, o, t)

  execute-Inv : (s : Page) → Inv s → Inv (step execute_clicked s)
  unfolding step
  execute-Inv s v = go s.pending_action refl
    where
      go :
          (o : Option Pending)
          → s.pending_action ≡ o
          → Inv (if can_execute o s.two_key_input then perform_with o s else s)
      go none e = unfold can_execute in v
      go (some p) e = elim (Bool-cases (str_eq s.two_key_input p.host.hostname)) [
        | inl m ↦
            let same : s.two_key_input ≡ p.host.hostname = (eq_iff _ _).0 m in
            let named : IsTyped p.host.hostname = subst IsTyped same v.text in
            rw m (record {
              pending = v.pending;
              text = v.text;
              hours = v.hours;
              posted = (post_of-IsOrdered _ _ _ (v.pending p e) named v.hours, v.posted);
            })
        | inr m ↦ rw m v
      ]

  -- The dialog is empty.
  reset-Inv :
      (s : Page)
      → s.pending_action ≡ none
      → s.two_key_input ≡ ""
      → IsChosen s.auto_release_hours
      → All IsOrdered s.posted
      → Inv s
  reset-Inv s e t h p = record {
    pending = λ a e'. absurd (cc);
    text = inl t;
    hours = h;
    posted = p;
  }

  settled-Inv :
      (o : Option Pending) (i : ℕ) (success : Bool) (s : Page)
      → Inv s
      → Inv (settle_with o i success s)
  unfolding settle_with
  settled-Inv none i success s v = v
  settled-Inv (some p) i false s v = reset-Inv _ refl refl (inl refl) v.posted
  settled-Inv (some p) i true s v = reset-Inv _ refl refl (inl refl) (sent p.kind)
    where
      sent :
          (kind : Kind)
          → All IsOrdered
              (succeeded kind p.host (record s { in_flight = remove_at s.in_flight i })).posted
      sent isolate = unfold succeeded in v.posted
      sent release = unfold succeeded in v.posted

  opened-Inv :
      (kind : Kind) (host : Host) (s : Page)
      → Happened (opened kind host)
      → Inv s
      → Inv (step (opened kind host) s)
  unfolding step
  opened-Inv kind host s h v = record {
    pending = λ p e. subst (λ (o : Option Pending). opened_by o) e h;
    text = v.text;
    hours = v.hours;
    posted = v.posted;
  }
    where
      opened_by : Option Pending → Type 0
      opened_by none = Unit
      opened_by (some p) = Happened (opened p.kind p.host)

  step-Inv : (e : Event) (s : Page) → Happened e → Inv s → Inv (step e s)
  unfolding step
  step-Inv (replied r) s h v = record {
    pending = v.pending;
    text = v.text;
    hours = v.hours;
    posted = v.posted;
  }
  step-Inv (opened kind host) s h v = opened-Inv kind host s h v
  step-Inv (typed t) s h v = record {
    pending = v.pending;
    text = inr h;
    hours = v.hours;
    posted = v.posted;
  }
  step-Inv (hours_chosen n) s h v = record {
    pending = v.pending;
    text = v.text;
    hours = inr h;
    posted = v.posted;
  }
  step-Inv cancelled s h v = reset-Inv _ refl refl v.hours v.posted
  step-Inv execute_clicked s h v = execute-Inv s v
  step-Inv (ended i success) s h v =
      unfold action_settled in settled-Inv (get_elem? s.in_flight i) i success s v
  step-Inv done s h v = record {
    pending = v.pending;
    text = v.text;
    hours = v.hours;
    posted = v.posted;
  }

  run-Inv : (es : List Event) (s : Page) → All Happened es → Inv s → Inv (run s es)
  unfolding run
  run-Inv [] s h v = v
  run-Inv (e ∷ es) s h v = run-Inv es (step e s) h.1 (step-Inv e s h.0 v)

All-weaken :
    {P Q : Event → Type 0} → ((e : Event) → P e → Q e) → (es : List Event) → All P es → All Q es
All-weaken f [] h = tt
All-weaken f (e ∷ es) h = (f e h.0, All-weaken f es h.1)

each-Memᴰ : (es : List Event) → All (λ e. Memᴰ e es) es
each-Memᴰ [] = tt
each-Memᴰ (e ∷ es) = (Memᴰ.head refl, All-weaken (λ d m. Memᴰ.tail m) es (each-Memᴰ es))

-- The request that an order stands for.
unfoldable pub request : Kind → Host → ℕ → Post
request isolate host hours = post_isolate host.id hours
request release host hours = post_release host.id

dialog_run :
    (s : Page) (kind : Kind) (host : Host) (hours : ℕ) (text : String)
    → (run s (opened kind host ∷ hours_chosen hours ∷ typed text ∷ execute_clicked ∷ [])).posted
      ≡ (if str_eq text host.hostname then request kind host hours ∷ s.posted else s.posted)
unfolding run step request post_of
dialog_run s isolate host hours text = ground arith
dialog_run s release host hours text = ground arith

-- Whatever the events and their order, each isolation that was ever sent is for a host whose dialog was
-- opened for isolation, and each release for one whose dialog was opened for release; the name of that
-- host was typed, unless it is empty, and the hours of an isolation were chosen, unless they are 0. And
-- after them, if the dialog is opened, hours are chosen, a text is typed and the button is clicked, then
-- exactly one more request is sent, to isolate the host with these hours or to release it as the dialog
-- says, if the text is the host's name letter for letter, and none if it is not.
pub execute_exact :
    (es : List Event) (kind : Kind) (host : Host) (hours : ℕ) (text : String)
    → let s = run start es in
      All (IsOrdered (λ e. Memᴰ e es)) s.posted
      × ((run s (opened kind host ∷ hours_chosen hours ∷ typed text ∷ execute_clicked ∷ [])).posted
          ≡ (if str_eq text host.hostname then request kind host hours ∷ s.posted else s.posted))
unfolding start
execute_exact es kind host hours text = (
  (run-Inv (λ e. Memᴰ e es) es _ (each-Memᴰ es)
      (reset-Inv (λ e. Memᴰ e es) _ refl refl (inl refl) tt)).posted,
  dialog_run (run start es) kind host hours text,
)
