-- ===== src/Tests/Investigations.antt =====
-- Concrete runs of the investigation store and of the command centre.
use Prim.Native.String.{String}
use homelabs_siem_soar.Prelude.{◌≡◌, refl, inl, trim, true, some, List, [], ◌∷◌, All}
use homelabs_siem_soar.Investigations.Types.{Alert, ActionInfo, destructive, read_only}
use homelabs_siem_soar.Investigations.Context
use homelabs_siem_soar.Investigations.Context.TwoKey.{executed_were_approved}
use homelabs_siem_soar.Investigations.CommandCenter
use homelabs_siem_soar.Investigations.CommandCenter.Feed.{feed_ids_distinct, HasDistinctIds}

abbrev isolate_host : ActionInfo
isolate_host = record {
  action = "Isolate";
  target = "db-1";
  justification = "beaconing";
  risk = destructive;
}

abbrev look_up : ActionInfo
look_up = record { action = "Look up"; target = "db-1"; justification = ""; risk = read_only }

-- The target is typed into the modal.
abbrev typed : String → Context.Modal → Context.Modal
typed text m = record m { input = text }

abbrev two_keys : List Context.Event
two_keys =
    Context.approved isolate_host
    ∷ Context.approved look_up
    ∷ Context.modal_set (typed " db-1 ")
    ∷ Context.confirmed
    ∷ Context.execute_ended
    ∷ []

two_keys_tests : (Context.run Context.start two_keys).executed ≡ isolate_host ∷ []
unfolding Context.run Context.start trim
two_keys_tests = refl

executed_were_approved_example :
    All (λ a. a ≡ isolate_host) (Context.run Context.start two_keys).executed
executed_were_approved_example =
    executed_were_approved (λ a. a ≡ isolate_host) two_keys
      (λ _. refl, (λ h. absurd (cc), (λ m a e. inl e, (tt, (tt, tt)))))

abbrev phishing : Alert
phishing = record { id = "a1"; kind = "phishing"; severity = 2 }

abbrev scan : Alert
scan = record { id = "a2"; kind = "port scan"; severity = 7 }

abbrev feed_events : List CommandCenter.FeedEvent
feed_events =
    CommandCenter.loaded (some (phishing ∷ []))
    ∷ CommandCenter.streamed (some scan)
    ∷ CommandCenter.streamed (some scan)
    ∷ CommandCenter.acknowledged true "a1"
    ∷ []

feed_ids_distinct_example : HasDistinctIds (CommandCenter.feed [] feed_events)
feed_ids_distinct_example = feed_ids_distinct feed_events ((refl, tt), (tt, (tt, (tt, tt))))
