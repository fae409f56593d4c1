-- ===== src/Detection/IocSearch.antt =====
-- soc-frontend/src/pages/detection/IocSearchPage.tsx: the search for indicators, the recent searches,
-- and the watch list. A search waits 800 ms, and each one waits as long, so the first one that was
-- started ends first.
pub mod Recent
pub mod WatchList
pub mod Kinds
use Prim.Native.Char.{Char, code}
use Prim.Native.String.{String}
use text.Mathlib.Text.{◌==◌ as str_eq}
use homelabs_siem_soar.Prelude.{
  ℕ, ◌+◌, ◌-◌, ◌==◌, leb, includes, zero, suc, Bool, true, false, not, ◌&&◌, Option, none, some,
  List, [], ◌∷◌, ◌++◌, map, filter_by, take, length, get_elem?, remove_at, split_at, trim, is_empty,
  if◌then◌else◌,
}

pub data IocType : Type 0 where
  ip : IocType
  domain : IocType
  hash : IocType

-- A result, less the numbers of its random draw.
pub record IocResult : Type 0 where
  pub ioc : String
  pub ioc_type : IocType
  pub is_malicious : Bool
  pub is_watched : Bool

-- A `toggleWatchlist` in flight, with the results that it closed over.
pub record Watch : Type 0 where
  pub ioc : String
  pub closed_results : List IocResult

pub record Page : Type 0 where
  pub query : String
  pub results : List IocResult
  pub loading : Bool
  pub recent_searches : List String
  pub stored_searches : List String  -- what local storage keeps
  pub searches : List (List String)  -- the indicators of each search that waits, oldest first
  pub watches : List Watch
  pub failures : ℕ  -- alerts "Failed to update watchlist"

-- What local storage has, or nothing if it cannot be read.
abbrev or_empty : Option (List String) → List String
or_empty none = []
or_empty (some xs) = xs

unfoldable pub open_page : Option (List String) → Page
open_page stored =
    let recent = or_empty stored in
    record {
      query = "";
      results = [];
      loading = false;
      recent_searches = recent;
      stored_searches = recent;
      searches = [];
      watches = [];
      failures = 0;
    }

-- `[searchQuery, ...recentSearches.filter(q => q !== searchQuery)].slice(0, 10)`.
unfoldable pub new_recents : String → List String → List String
new_recents search recent = take 10 (search ∷ filter_by (λ q. not (str_eq q search)) recent)

-- `searchQuery.split('\n').map(s => s.trim()).filter(Boolean)`: 10 is the line feed.
unfoldable pub ioc_list : String → List String
ioc_list search = filter_by (λ s. not (is_empty s)) (map trim (split_at 10 search))

-- `handleSearch` up to its `await`.
unfoldable pub handle_search : String → Page → Page
unfolding new_recents
handle_search search s = if is_empty (trim search) then s else record s {
  loading = true;
  recent_searches = new_recents search s.recent_searches;
  stored_searches = new_recents search s.recent_searches;
  searches = s.searches ++ ioc_list search ∷ [];
}

-- `[0-9]`.
abbrev pub is_digit : ℕ → Bool
is_digit c = leb 48 c && leb c 57

-- The run of `/^[0-9]+(?:\.[0-9]+){3}$/` on what is left of a text, with the groups that are still to
-- come and whether the present one has a digit: 46 is the dot.
unfoldable pub matches_groups : ℕ → Bool → String → Bool
matches_groups groups started String.[] = started && groups == 0
matches_groups groups started (String.◌∷◌ c s) =
    let in_group = matches_groups groups true s in
    let next_group = matches_groups (groups - 1) false s in
    if is_digit (code c)
    then in_group
    else code c == 46 && started && not (groups == 0) && next_group

-- The `type` of a result.
unfoldable pub type_of_ioc : String → IocType
unfolding matches_groups
type_of_ioc ioc =
    if includes ioc "." then if matches_groups 3 false ioc then ip else domain else hash

-- The mock results; `verdict` is the draw for an indicator.
unfoldable pub results_of : (String → Bool) → List String → List IocResult
unfolding type_of_ioc
results_of verdict iocs =
    map
      (λ ioc. record {
        ioc = ioc;
        ioc_type = type_of_ioc ioc;
        is_malicious = verdict ioc;
        is_watched = false;
      })
      iocs

search_found : (String → Bool) → List (List String) → Page → Page
unfolding results_of
search_found verdict [] s = s
search_found verdict (iocs ∷ rest) s = record s {
  results = results_of verdict iocs;
  loading = false;
  searches = rest;
}

-- The wait of the oldest search ends.
unfoldable pub search_settled : (String → Bool) → Page → Page
unfolding search_found
search_settled verdict s = search_found verdict s.searches s

-- `toggleWatchlist` up to its `await`.
unfoldable pub toggle_watchlist : String → Page → Page
toggle_watchlist ioc s = record s {
  watches = s.watches ++ record { ioc = ioc; closed_results = s.results } ∷ [];
}

unfoldable pub flip_watched : String → IocResult → IocResult
flip_watched ioc r = if str_eq r.ioc ioc then record r { is_watched = not r.is_watched } else r

watch_ended : Bool → Watch → ℕ → Page → Page
unfolding flip_watched
watch_ended true w i s = record s {
  results = map (flip_watched w.ioc) w.closed_results;
  watches = remove_at s.watches i;
}
watch_ended false w i s = record s { failures = suc s.failures; watches = remove_at s.watches i }

watch_found : Option Watch → ℕ → Bool → Page → Page
unfolding watch_ended
watch_found none i success s = s
watch_found (some w) i success s = watch_ended success w i s

-- The request at a place of the list ends.
unfoldable pub watch_settled : ℕ → Bool → Page → Page
unfolding watch_found
watch_settled i success s = watch_found (get_elem? s.watches i) i success s

pub data Event : Type 0 where
  typed : String → Event
  hunt_clicked : Event
  recent_clicked : ℕ → Event
  search_ended : (String → Bool) → Event
  watch_clicked : String → Event
  watch_ended_at : ℕ → Bool → Event

recent_chosen : Option String → Page → Page
unfolding handle_search
recent_chosen none s = s
recent_chosen (some search) s = handle_search search (record s { query = search })

-- The button is disabled while a search runs and for a blank query; the recent searches are not.
unfoldable pub step : Event → Page → Page
unfolding handle_search search_settled toggle_watchlist watch_settled recent_chosen
step (typed text) s = record s { query = text }
step hunt_clicked s = if s.loading then s else handle_search s.query s
step (recent_clicked i) s = recent_chosen (get_elem? s.recent_searches i) s
step (search_ended verdict) s = search_settled verdict s
step (watch_clicked ioc) s = toggle_watchlist ioc s
step (watch_ended_at i success) s = watch_settled i success s

unfoldable pub run : Page → List Event → Page
unfolding step
run s [] = s
run s (e ∷ es) = run (step e s) es
