-- ===== src/Detection/ThreatFeeds.antt =====
-- soc-frontend/src/pages/detection/ThreatFeedsPage.tsx: the table of feeds, their synchronisation, and
-- the form for a new feed.
pub mod Sync
pub mod AddFeed
use Prim.Native.String.{String}
use text.Mathlib.Text.{◌==◌ as str_eq}
use homelabs_siem_soar.Prelude.{
  ℕ, zero, suc, Bool, true, false, not, ◌&&◌, ◌||◌, ◌==◌, Option, none, some, List, [], ◌∷◌, ◌++◌,
  get_elem?, remove_at, includes, map_from, text_or, if◌then◌else◌,
}
use homelabs_siem_soar.Hooks.AsyncState.{
  AsyncState, Reply, ok, failed, Screen, content, initial, begin, settle, screen,
}

pub data FeedHealth : Type 0 where
  healthy degraded down : FeedHealth

-- A feed of the reply; `kind` is its `type`.
pub record RawFeed : Type 0 where
  pub id : String
  pub name : String
  pub kind : String
  pub health : FeedHealth

pub record Quota : Type 0 where
  pub used : ℕ
  pub limit : ℕ

-- What the page draws at random for a feed: a quality, a use of its quota, and whether it has errors.
pub record Random : Type 0 where
  pub quality : ℕ
  pub used : ℕ
  pub has_errors : Bool

-- `EnhancedThreatFeed`, with the messages of its recent errors.
pub record Feed : Type 0 where
  pub raw : RawFeed
  pub quality_score : ℕ
  pub quota : Option Quota
  pub recent_errors : List String

unfoldable pub enhance : (ℕ → Random) → ℕ → RawFeed → Feed
enhance random i f = record {
  raw = f;
  quality_score = (random i).quality;
  quota =
      if str_eq f.kind "COMMERCIAL" || includes f.name "Alien"
      then some (record { used = (random i).used; limit = 10000 })
      else none;
  recent_errors =
      if (random i).has_errors
      then "Malformed STIX payload at line 42" ∷ "Connection timeout during bulk fetch" ∷ []
      else [];
}

unfoldable pub loaded : (ℕ → Random) → Reply (List RawFeed) → Reply (List Feed)
unfolding enhance
loaded random (ok feeds) = ok (map_from 0 (enhance random) feeds)
loaded random (failed message) = failed message

-- `newFeed`.
pub record NewFeed : Type 0 where
  pub name : String
  pub kind : String
  pub url : String
  pub credential : String

abbrev pub blank_feed : NewFeed
blank_feed = record { name = ""; kind = "TAXII"; url = ""; credential = "" }

-- How a request fails: its status and two messages, each of which may be missing.
pub record Failure : Type 0 where
  pub status : Option ℕ
  pub response_message : Option String
  pub message : Option String

pub data Outcome : Type 0 where
  succeeded : Outcome
  failed_with : Failure → Outcome

pub data Notice : Type 0 where
  authentication_failed : String → Notice
  sync_failed : String → Notice

pub record Page : Type 0 where
  pub table : AsyncState (List Feed)
  pub loads : ℕ  -- the requests of `execute` in flight
  pub syncing_id : Option String
  pub syncs : List RawFeed  -- the feed of each synchronisation in flight
  pub show_add_modal : Bool
  pub new_feed : NewFeed
  pub add_error : String
  pub adds : ℕ  -- the requests for a new feed in flight
  pub posted_feeds : List NewFeed  -- their bodies, latest first
  pub expanded_error_feed : Option String
  pub notices : List Notice  -- the texts of `alert`, latest first

unfoldable pub start : Page
unfolding initial
start = record {
  table = initial;
  loads = 0;
  syncing_id = none;
  syncs = [];
  show_add_modal = false;
  new_feed = blank_feed;
  add_error = "";
  adds = 0;
  posted_feeds = [];
  expanded_error_feed = none;
  notices = [];
}

-- `execute` up to the `await` of its request.
unfoldable pub execute : Page → Page
unfolding begin
execute s = record s { table = begin s.table; loads = suc s.loads }

load_counted : ℕ → Reply (List Feed) → Page → Page
unfolding settle
load_counted zero reply s = s
load_counted (suc n) reply s = record s { table = settle reply s.table; loads = n }

unfoldable pub load_settled : Reply (List Feed) → Page → Page
unfolding load_counted
load_settled reply s = load_counted s.loads reply s

-- `handleSync` up to its `await`.
unfoldable pub handle_sync : RawFeed → Page → Page
handle_sync feed s = record s { syncing_id = some feed.id; syncs = s.syncs ++ feed ∷ [] }

abbrev pub is_syncing : Option String → String → Bool
is_syncing none id = false
is_syncing (some busy) id = str_eq busy id

abbrev pub is_content : Screen → Bool
is_content content = true
is_content _ = false

-- A click on 'Force Sync': the table is there, and the button is disabled while the feed is the one
-- that is being synchronised.
unfoldable pub sync_clicked : RawFeed → Page → Page
unfolding handle_sync screen
sync_clicked feed s =
    if is_content (screen s.table) && not (is_syncing s.syncing_id feed.id)
    then handle_sync feed s
    else s

-- `status === 401 || status === 403`.
abbrev is_refusal : Option ℕ → Bool
is_refusal none = false
is_refusal (some status) = status == 401 || status == 403

sync_notice : RawFeed → Failure → Notice
sync_notice feed f =
    if is_refusal f.status then authentication_failed feed.name else sync_failed feed.name

sync_ended : RawFeed → Outcome → Page → Page
unfolding execute sync_notice
sync_ended feed succeeded s = record (execute s) { syncing_id = none }
sync_ended feed (failed_with f) s = record s {
  syncing_id = none;
  notices = sync_notice feed f ∷ s.notices;
}

sync_found : Option RawFeed → ℕ → Outcome → Page → Page
unfolding sync_ended
sync_found none i o s = s
sync_found (some feed) i o s = sync_ended feed o (record s { syncs = remove_at s.syncs i })

-- The end of the synchronisation at a place of the list, `finally` included.
unfoldable pub sync_settled : ℕ → Outcome → Page → Page
unfolding sync_found
sync_settled i o s = sync_found (get_elem? s.syncs i) i o s

-- `handleAddFeed` up to its `await`.
unfoldable pub handle_add_feed : Page → Page
handle_add_feed s = record s {
  add_error = "";
  adds = suc s.adds;
  posted_feeds = s.new_feed ∷ s.posted_feeds;
}

-- `e.response?.data?.message || e.message || 'Failed to add feed'`.
unfoldable pub add_failure : Failure → String
add_failure f = text_or f.response_message (text_or f.message "Failed to add feed")

add_ended : ℕ → Outcome → Page → Page
unfolding execute add_failure
add_ended zero o s = s
add_ended (suc n) succeeded s =
    execute (record s { adds = n; show_add_modal = false; new_feed = blank_feed })
add_ended (suc n) (failed_with f) s = record s { adds = n; add_error = add_failure f }

-- The end of a request for a new feed; the requests in flight differ in nothing that it reads.
unfoldable pub add_settled : Outcome → Page → Page
unfolding add_ended
add_settled o s = add_ended s.adds o s

abbrev pub toggled : Option String → String → Option String
toggled none id = some id
toggled (some open_id) id = if str_eq open_id id then none else some id

pub data Event : Type 0 where
  loading_begun : Event
  load_ended : Reply (List Feed) → Event
  sync_pressed : RawFeed → Event
  sync_replied : ℕ → Outcome → Event
  form_edited : NewFeed → Event
  form_shown : Bool → Event
  form_submitted : Event
  add_replied : Outcome → Event
  errors_clicked : String → Event

unfoldable pub step : Event → Page → Page
unfolding execute load_settled sync_clicked sync_settled handle_add_feed add_settled
step loading_begun s = execute s
step (load_ended reply) s = load_settled reply s
step (sync_pressed feed) s = sync_clicked feed s
step (sync_replied i o) s = sync_settled i o s
step (form_edited feed) s = record s { new_feed = feed }
step (form_shown value) s = record s { show_add_modal = value }
step form_submitted s = handle_add_feed s
step (add_replied o) s = add_settled o s
step (errors_clicked id) s = record s { expanded_error_feed = toggled s.expanded_error_feed id }

unfoldable pub run : Page → List Event → Page
unfolding step
run s [] = s
run s (e ∷ es) = run (step e s) es
