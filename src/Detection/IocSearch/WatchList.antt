-- ===== src/Detection/IocSearch/WatchList.antt =====
-- A toggle of the watch list that ends late.
use Prim.Native.String.{String}
use homelabs_siem_soar.Prelude.{◌≡◌, refl, Bool, true, false, [], ◌∷◌, map, trim, is_empty}
use homelabs_siem_soar.Detection.IocSearch.{
  Page, ioc_list, results_of, flip_watched, handle_search, search_settled, search_found,
  toggle_watchlist, watch_settled, watch_found, watch_ended, hunt_clicked, search_ended,
  watch_clicked, watch_ended_at, step, run,
}

-- A toggle of the watch list is sent, and before its reply a search is started and shows its results;
-- the reply then puts the results of the search before back, with the one mark changed.
late_watch_restores_results :
    (ioc : String) (verdict : String → Bool) (s : Page)
    → s.loading ≡ false
    → s.watches ≡ []
    → s.searches ≡ []
    → is_empty (trim s.query) ≡ false
    → ((run s (watch_clicked ioc ∷ hunt_clicked ∷ search_ended verdict ∷ [])).results
        ≡ results_of verdict (ioc_list s.query))
      × ((run s (
            watch_clicked ioc
            ∷ hunt_clicked
            ∷ search_ended verdict
            ∷ watch_ended_at 0 true
            ∷ [])).results
          ≡ map (flip_watched ioc) s.results)
unfolding run step handle_search search_settled search_found toggle_watchlist watch_settled
    watch_found watch_ended
late_watch_restores_results ioc verdict s l w q h = rw (l, h, w, q) (refl, refl)
