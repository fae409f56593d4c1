-- ===== src/Detection/IocSearch/Recent.antt =====
-- The recent searches.
use Prim.Native.String.{String}
use text.Mathlib.Text.{◌==◌ as str_eq}
use homelabs_siem_soar.Prelude.{
  ℕ, zero, suc, ◌≡◌, ◌≤◌, refl, sym, ◌∙◌, Bool, true, false, not, Option, none, some, List, [], ◌∷◌,
  arith, filter_by, take, length, get_elem?, trim, is_empty, if◌then◌else◌, inl, inr, Bool-cases,
}
use homelabs_siem_soar.Prelude.IdSet.{has, HasNoRepeats}
use homelabs_siem_soar.Detection.IocSearch.{
  Page, open_page, new_recents, handle_search, search_found, search_settled, toggle_watchlist,
  watch_settled, watch_found, watch_ended, Watch, Event, typed, hunt_clicked, recent_clicked,
  search_ended, watch_clicked, watch_ended_at, recent_chosen, step, run,
}

has-others :
    (xs : List String) (a id : String)
    → has xs id ≡ false
    → has (filter_by (λ q. not (str_eq q a)) xs) id ≡ false
unfolding has
has-others [] a id h = refl
has-others (x ∷ xs) a id h = ground (arith, has-others xs a id)

HasNoRepeats-others :
    (xs : List String) (a : String)
    → HasNoRepeats xs
    → HasNoRepeats (filter_by (λ q. not (str_eq q a)) xs)
HasNoRepeats-others [] a h = tt
HasNoRepeats-others (x ∷ xs) a h = elim (Bool-cases (str_eq x a)) [
  | inl e ↦ rw e (HasNoRepeats-others xs a h.1)
  | inr e ↦ rw e (has-others xs a x h.0, HasNoRepeats-others xs a h.1)
]

has-itself : (xs : List String) (a : String) → has (filter_by (λ q. not (str_eq q a)) xs) a ≡ false
unfolding has
has-itself [] a = refl
has-itself (x ∷ xs) a = ground (arith, has-itself xs a)

has-take : (n : ℕ) (xs : List String) (id : String) → has xs id ≡ false → has (take n xs) id ≡ false
unfolding has
has-take zero xs id h = refl
has-take (suc n) [] id h = refl
has-take (suc n) (x ∷ xs) id h = ground (arith, has-take n xs id)

HasNoRepeats-take : (n : ℕ) (xs : List String) → HasNoRepeats xs → HasNoRepeats (take n xs)
HasNoRepeats-take zero xs h = tt
HasNoRepeats-take (suc n) [] h = tt
HasNoRepeats-take (suc n) (x ∷ xs) h = (has-take n xs x h.0, HasNoRepeats-take n xs h.1)

length-take : (n : ℕ) (xs : List String) → length (take n xs) ≤ n
length-take zero xs = omega arith
length-take (suc n) [] = omega arith
length-take (suc n) (x ∷ xs) = omega (arith, length-take n xs)

-- What holds of the recent searches of a page.
pub record IsTidy (s : Page) : Type 0 where
  pub few : length s.recent_searches ≤ 10
  pub distinct : HasNoRepeats s.recent_searches
  pub kept : s.stored_searches ≡ s.recent_searches

new_recents-IsTidy :
    (sought : String) (recent : List String)
    → HasNoRepeats recent
    → (length (new_recents sought recent) ≤ 10) × HasNoRepeats (new_recents sought recent)
unfolding new_recents
new_recents-IsTidy sought recent d = (
  length-take 10 (sought ∷ filter_by (λ q. not (str_eq q sought)) recent),
  HasNoRepeats-take 10 (sought ∷ filter_by (λ q. not (str_eq q sought)) recent)
      (has-itself recent sought, HasNoRepeats-others recent sought d),
)

search-IsTidy : (sought : String) (s : Page) → IsTidy s → IsTidy (handle_search sought s)
unfolding handle_search
search-IsTidy sought s v = elim (Bool-cases (is_empty (trim sought))) [
  | inl e ↦ rw e v
  | inr e ↦ rw e (record {
    few = (new_recents-IsTidy sought s.recent_searches v.distinct).0;
    distinct = (new_recents-IsTidy sought s.recent_searches v.distinct).1;
    kept = refl;
  })
]

-- A page with the same recent searches.
same-IsTidy :
    (s t : Page)
    → t.recent_searches ≡ s.recent_searches
    → t.stored_searches ≡ s.stored_searches
    → IsTidy s
    → IsTidy t
same-IsTidy s t e f v = record {
  few = rw e v.few;
  distinct = rw e v.distinct;
  kept = f ∙ v.kept ∙ sym e;
}

step-IsTidy : (e : Event) (s : Page) → IsTidy s → IsTidy (step e s)
unfolding step recent_chosen search_settled search_found toggle_watchlist watch_settled watch_found
    watch_ended
step-IsTidy (typed text) s v = same-IsTidy s (record s { query = text }) refl refl v
step-IsTidy hunt_clicked s v = go s.loading
  where
    go : (b : Bool) → IsTidy (if b then s else handle_search s.query s)
    go true = v
    go false = search-IsTidy s.query s v
step-IsTidy (recent_clicked i) s v = go (get_elem? s.recent_searches i)
  where
    go : (o : Option String) → IsTidy (recent_chosen o s)
    go none = v
    go (some text) =
        search-IsTidy text (record s { query = text })
          (same-IsTidy s (record s { query = text }) refl refl v)
step-IsTidy (search_ended verdict) s v = go s.searches
  where
    go : (xs : List (List String)) → IsTidy (search_found verdict xs s)
    go [] = v
    go (iocs ∷ rest) = same-IsTidy s (search_found verdict (iocs ∷ rest) s) refl refl v
step-IsTidy (watch_clicked ioc) s v = same-IsTidy s (toggle_watchlist ioc s) refl refl v
step-IsTidy (watch_ended_at i success) s v = go (get_elem? s.watches i) success
  where
    go : (o : Option Watch) (b : Bool) → IsTidy (watch_found o i b s)
    go none b = v
    go (some w) true = same-IsTidy s (watch_found (some w) i true s) refl refl v
    go (some w) false = same-IsTidy s (watch_found (some w) i false s) refl refl v

run-IsTidy : (es : List Event) (s : Page) → IsTidy s → IsTidy (run s es)
unfolding run
run-IsTidy [] s v = v
run-IsTidy (e ∷ es) s v = run-IsTidy es (step e s) (step-IsTidy e s v)

-- If local storage has at most ten distinct searches, then after any events the page has at most ten
-- distinct recent searches and local storage has the same; and a search that is not blank is put in
-- front of them.
pub recent_searches_few_and_distinct :
    (stored : List String) (es : List Event)
    → length stored ≤ 10
    → HasNoRepeats stored
    → IsTidy (run (open_page (some stored)) es)
      × ((sought : String)
          → is_empty (trim sought) ≡ false
          → get_elem? (handle_search sought (run (open_page (some stored)) es)).recent_searches 0
            ≡ some sought)
unfolding open_page handle_search new_recents
recent_searches_few_and_distinct stored es l d =
    (run-IsTidy es _ (record { few = l; distinct = d; kept = refl }), λ sought h. rw h refl)
