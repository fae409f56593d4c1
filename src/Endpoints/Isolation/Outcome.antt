-- ===== src/Endpoints/Isolation/Outcome.antt =====
-- What the end of a request does, and what the page shows of its hosts.
use homelabs_siem_soar.Prelude.{
  ℕ, suc, ◌≡◌, ◌↔◌, refl, Bool, true, false, none, some, List, [], ◌∷◌, map, arith, get_elem?,
  remove_at, filter_by, length, count_by,
}
use homelabs_siem_soar.Hooks.AsyncState.{begin}
use homelabs_siem_soar.Endpoints.Isolation.{
  Host, Kind, isolate, release, Pending, Page, action_settled, settle_with,
}
use homelabs_siem_soar.Endpoints.Isolation.View.{row_of, content_of, hosts, isolated_count}

-- The end of any request closes the dialog and forgets what was typed and chosen. A success reloads
-- the hosts, and an isolation, not a release, opens the checklist of the host that the request was
-- about, whatever host the dialog shows by then; a failure reloads nothing and is reported.
settled_effect :
    (s : Page) (i : ℕ) (p : Pending)
    → get_elem? s.in_flight i ≡ some p
    → ((success : Bool)
        → ((action_settled i success s).pending_action ≡ none)
          × ((action_settled i success s).two_key_input ≡ "")
          × ((action_settled i success s).auto_release_hours ≡ 0)
          × ((action_settled i success s).in_flight ≡ remove_at s.in_flight i))
      × ((action_settled i true s).table ≡ begin s.table)
      × (p.kind ≡ isolate → (action_settled i true s).checklist ≡ some p.host)
      × (p.kind ≡ release → (action_settled i true s).checklist ≡ s.checklist)
      × ((action_settled i false s).table ≡ s.table)
      × ((action_settled i false s).failures ≡ suc s.failures)
unfolding action_settled begin
settled_effect s i p e =
    (always, rw e (reloads p.kind), λ k. rw (e, k) refl, λ k. rw (e, k) refl, rw e refl, rw e refl)
  where
    reloads :
        (k : Kind)
        → (settle_with (some (record { host = p.host; kind = k })) i true s).table ≡ begin s.table
    reloads isolate = refl
    reloads release = refl

    kept :
        (k : Kind)
        → (settle_with (some (record { host = p.host; kind = k })) i true s).in_flight
          ≡ remove_at s.in_flight i
    kept isolate = refl
    kept release = refl

    always :
        (success : Bool)
        → ((action_settled i success s).pending_action ≡ none)
          × ((action_settled i success s).two_key_input ≡ "")
          × ((action_settled i success s).auto_release_hours ≡ 0)
          × ((action_settled i success s).in_flight ≡ remove_at s.in_flight i)
    always true = rw e (refl, refl, refl, kept p.kind)
    always false = rw e (refl, refl, refl, refl)

abbrev is_release : Kind → Bool
is_release release = true
is_release isolate = false

rows_count :
    (hs : List Host)
    → count_by (λ r. is_release r.button) (map row_of hs)
      ≡ length (filter_by (λ h. h.is_isolated) hs)
unfolding row_of
rows_count [] = refl
rows_count (h ∷ hs) = ground (arith, rows_count hs)

-- The rows that offer a release are as many as the banner counts, and the banner is missing exactly
-- if there is no such row.
banner_counts_rows :
    (s : Page)
    → (count_by (λ r. is_release r.button) (content_of s).rows ≡ isolated_count s.table.value)
      × (((content_of s).warning ≡ none)
          ↔ (count_by (λ r. is_release r.button) (content_of s).rows ≡ 0))
unfolding content_of isolated_count
banner_counts_rows s =
    let count = rows_count (hosts s.table.value) in
    (count, (λ h. ground (arith, count), λ h. ground (arith, count)))
