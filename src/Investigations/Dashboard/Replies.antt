-- ===== src/Investigations/Dashboard/Replies.antt =====
-- What the dashboard shows against the latest reply.
use Prim.Native.String.{String}
use text.Mathlib.Text.{◌==◌ as str_eq}
use homelabs_siem_soar.Prelude.{
  ℕ, ◌≡◌, refl, ap, sym, ◌∙◌, Bool, true, false, not, ◌||◌, Option, none, some, List, [], ◌∷◌, ◌++◌,
  filter_by, get_elem?, All, is_empty, if◌then◌else◌, inl, inr, Bool-cases,
}
use homelabs_siem_soar.Hooks.AsyncState.{ok, failed, screen}
use homelabs_siem_soar.Investigations.Types.{ActionInfo, LogEntry}
use mathlib.Core.List.{append-nil, append_assoc}
use homelabs_siem_soar.Investigations.Dashboard.{
  set_id, load_settled, load_found, settle_reply, approve_clicked, approve_found, shows_cards,
  ended_found, retry, is_failure, Body, list_of, Page, Event, id_shown, load_ended, log_arrived,
  approve_pressed, approve_replied, retry_pressed, step, run,
}

-- Events other than the successful end of a load.
abbrev KeepsReply : Event → Type 0
KeepsReply (load_ended i (ok body)) = ⊥
KeepsReply _ = Unit {0}

abbrev message_of : Event → List LogEntry
message_of (log_arrived entry) = entry ∷ []
message_of _ = []

-- The messages of the stream.
abbrev pub messages : List Event → List LogEntry
messages [] = []
messages (e ∷ es) = message_of e ++ messages es

names_of : Option ActionInfo → List String
names_of none = []
names_of (some action) = action.action ∷ []

-- The names of the actions whose approval an event ends with success.
newly_approved : Event → Page → List String
unfolding names_of
newly_approved (approve_replied i true) s = names_of (get_elem? s.approvals i)
newly_approved _ s = []

-- The names of the actions whose approval succeeds during the events.
unfoldable pub approved_in : Page → List Event → List String
unfolding newly_approved
approved_in s [] = []
approved_in s (e ∷ es) = newly_approved e s ++ approved_in (step e s) es

is_approved : List String → ActionInfo → Bool
is_approved [] a = false
is_approved (name ∷ names) a = str_eq a.action name || is_approved names a

-- The actions whose names are not in a list.
unfoldable pub without : List String → List ActionInfo → List ActionInfo
unfolding is_approved
without names xs = filter_by (λ a. not (is_approved names a)) xs

is_approved-append :
    (ms ns : List String) (a : ActionInfo)
    → is_approved (ms ++ ns) a ≡ (is_approved ms a || is_approved ns a)
unfolding is_approved
is_approved-append [] ns a = refl
is_approved-append (m ∷ ms) ns a = elim (Bool-cases (str_eq a.action m)) [
  | inl e ↦ rw e refl
  | inr e ↦ rw e (is_approved-append ms ns a)
]

without-nil : (xs : List ActionInfo) → without [] xs ≡ xs
unfolding without
without-nil [] = refl
without-nil (a ∷ xs) = ap (◌∷◌ a) (without-nil xs)

without-append :
    (ms ns : List String) (xs : List ActionInfo)
    → without (ms ++ ns) xs ≡ without ns (without ms xs)
unfolding without
without-append ms ns [] = refl
without-append ms ns (a ∷ xs) = elim (Bool-cases (is_approved ms a)) [
  | inl e ↦ rw (is_approved-append ms ns a, e) (without-append ms ns xs)
  | inr e ↦ elim (Bool-cases (is_approved ns a)) [
    | inl f ↦ rw (is_approved-append ms ns a, e, f) (without-append ms ns xs)
    | inr f ↦ rw (is_approved-append ms ns a, e, f) (ap (◌∷◌ a) (without-append ms ns xs))
  ]
]

without-one :
    (name : String) (xs : List ActionInfo)
    → filter_by (λ a. not (str_eq a.action name)) xs ≡ without (name ∷ []) xs
unfolding without
without-one name [] = refl
without-one name (a ∷ xs) = elim (Bool-cases (str_eq a.action name)) [
  | inl e ↦ rw e (without-one name xs)
  | inr e ↦ rw e (ap (◌∷◌ a) (without-one name xs))
]

-- A page that has the log of another with some entries more, and its actions without some names.
abbrev Follows : List LogEntry → List String → Page → Page → Type 0
Follows entries names s t = (t.logs ≡ s.logs ++ entries) × (t.actions ≡ without names s.actions)

same-Follows : (s : Page) → Follows [] [] s s
same-Follows s = (sym (append-nil s.logs), sym (without-nil s.actions))

shown-Follows : (id : Option String) (s : Page) → Follows [] [] s (set_id id s)
unfolding set_id
shown-Follows none s = same-Follows s
shown-Follows (some id) s = elim (Bool-cases (is_empty id)) [
  | inl e ↦ rw e (same-Follows s)
  | inr e ↦ rw e (same-Follows s)
]

failed-Follows :
    (o : Option (Option String)) (i : ℕ) (m : Option String) (s : Page)
    → Follows [] [] s (load_found o i (failed m) s)
unfolding load_found
failed-Follows none i m s = same-Follows s
failed-Follows (some id) i m s = same-Follows s

found-Follows : (o : Option ActionInfo) (s : Page) → Follows [] [] s (approve_found o s)
unfolding approve_found
found-Follows none s = same-Follows s
found-Follows (some action) s = same-Follows s

pressed-Follows : (i : ℕ) (s : Page) → Follows [] [] s (approve_clicked i s)
unfolding approve_clicked
pressed-Follows i s = elim (Bool-cases (shows_cards s)) [
  | inl e ↦ rw e (found-Follows (get_elem? s.actions i) s)
  | inr e ↦ rw e (same-Follows s)
]

ended-Follows :
    (o : Option ActionInfo) (i : ℕ) (success : Bool) (s : Page)
    → Follows [] (if success then names_of o else []) s (ended_found o i success s)
unfolding ended_found names_of
ended-Follows none i true s = same-Follows s
ended-Follows none i false s = same-Follows s
ended-Follows (some action) i true s =
    (sym (append-nil s.logs), without-one action.action s.actions)
ended-Follows (some action) i false s = same-Follows s

retry-Follows : (s : Page) → Follows [] [] s (retry s)
unfolding retry
retry-Follows s = elim (Bool-cases (is_failure (screen s.investigation))) [
  | inl e ↦ rw e (same-Follows s)
  | inr e ↦ rw e (same-Follows s)
]

step-Follows :
    (e : Event) (s : Page) → KeepsReply e → Follows (message_of e) (newly_approved e s) s (step e s)
unfolding step newly_approved
step-Follows (id_shown id) s k = shown-Follows id s
step-Follows (load_ended i (ok body)) s k = absurd k
step-Follows (load_ended i (failed m)) s k = failed-Follows (get_elem? s.loads i) i m s
step-Follows (log_arrived entry) s k = (refl, sym (without-nil s.actions))
step-Follows (approve_pressed i) s k = pressed-Follows i s
step-Follows (approve_replied i true) s k = ended-Follows (get_elem? s.approvals i) i true s
step-Follows (approve_replied i false) s k = ended-Follows (get_elem? s.approvals i) i false s
step-Follows retry_pressed s k = retry-Follows s

run-Follows :
    (s : Page) (es : List Event)
    → All KeepsReply es
    → Follows (messages es) (approved_in s es) s (run s es)
unfolding run approved_in
run-Follows s [] k = same-Follows s
run-Follows s (e ∷ es) k =
    let (l, a) = step-Follows e s k.0 in
    let (ls, rest) = run-Follows (step e s) es k.1 in
    (
      ls ∙ ap (λ xs. xs ++ messages es) l ∙ append_assoc s.logs (message_of e) (messages es),
      rest
          ∙ ap (without (approved_in (step e s) es)) a
          ∙ sym (without-append (newly_approved e s) (approved_in (step e s) es) s.actions),
    )

-- After the successful end of a load, and until the next one, the log is the log of the reply and then
-- the messages that arrived since, and the actions are those of the reply, in its order, without the
-- ones that have the name of an action whose approval has succeeded since. The id of the load and the
-- log and the actions of the page before it play no part.
pub latest_reply_is_shown :
    (s : Page) (i : ℕ) (id : Option String) (body : Body) (es : List Event)
    → get_elem? s.loads i ≡ some id
    → All KeepsReply es
    → let loaded = step (load_ended i (ok body)) s in
      let later = run loaded es in
      (later.logs ≡ list_of body.conversation_log ++ messages es)
      × (later.actions ≡ without (approved_in loaded es) (list_of body.proposed_actions))
unfolding step load_settled load_found settle_reply
latest_reply_is_shown s i id body es h k = rw h (run-Follows _ es k)
