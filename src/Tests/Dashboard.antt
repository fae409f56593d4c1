-- ===== src/Tests/Dashboard.antt =====
-- Concrete runs of the page of one investigation.
use homelabs_siem_soar.Prelude.{◌≡◌, refl, true, none, some, [], ◌∷◌, List, All}
use homelabs_siem_soar.Investigations.Types.{ActionInfo, LogEntry, destructive, read_only}
use homelabs_siem_soar.Investigations.Dashboard
use homelabs_siem_soar.Investigations.Dashboard.Replies.{
  latest_reply_is_shown, without, approved_in, messages,
}
use homelabs_siem_soar.Investigations.Dashboard.Posts.{only_proposed_are_posted}
use homelabs_siem_soar.Hooks.AsyncState.{ok}

abbrev isolate : ActionInfo
isolate = record {
  action = "Isolate";
  target = "db-1";
  justification = "beaconing";
  risk = destructive;
}

-- Another target with the same name of the action.
abbrev isolate_web : ActionInfo
isolate_web = record isolate { target = "web-1" }

abbrev look_up : ActionInfo
look_up = record isolate { action = "Look up"; risk = read_only }

abbrev entry : LogEntry
entry = record { agent = "triage"; message = "seen"; confidence = 80 }

abbrev body : Dashboard.Body
body = record {
  source_ip = none;
  conversation_log = some (entry ∷ []);
  proposed_actions = some (isolate ∷ look_up ∷ isolate_web ∷ []);
}

abbrev asked : Dashboard.Page
asked = record {
  id = some "inv-1";
  investigation = record { value = none; loading = true; error = none };
  logs = [];
  actions = [];
  loads = some "inv-1" ∷ [];
  approvals = [];
  posts = [];
  notices = [];
}

abbrev work : List Dashboard.Event
work =
    Dashboard.log_arrived entry
    ∷ Dashboard.approve_pressed 0
    ∷ Dashboard.approve_replied 0 true
    ∷ []

abbrev loaded : Dashboard.Page
loaded = Dashboard.step (Dashboard.load_ended 0 (ok body)) asked

latest_reply_is_shown_example :
    ((Dashboard.run loaded work).logs ≡ entry ∷ messages work)
    × ((Dashboard.run loaded work).actions
        ≡ without (approved_in loaded work) (isolate ∷ look_up ∷ isolate_web ∷ []))
latest_reply_is_shown_example =
    latest_reply_is_shown asked 0 (some "inv-1") body work refl (tt, (tt, (tt, tt)))

-- The approval of one action removes the other one of the same name.
namesakes_vanish : (Dashboard.run loaded work).actions ≡ look_up ∷ []
unfolding Dashboard.run Dashboard.step Dashboard.load_settled
namesakes_vanish = refl

abbrev visit : List Dashboard.Event
visit = Dashboard.id_shown (some "inv-1") ∷ Dashboard.load_ended 0 (ok body) ∷ work

abbrev IsJustified : ActionInfo → Type 0
IsJustified a = a.justification ≡ "beaconing"

only_proposed_are_posted_example :
    All (λ p. IsJustified p.action) (Dashboard.run Dashboard.start visit).posts
only_proposed_are_posted_example =
    only_proposed_are_posted IsJustified visit
      (tt, ((refl, (refl, (refl, tt))), (tt, (tt, (tt, tt)))))
