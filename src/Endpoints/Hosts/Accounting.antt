-- ===== src/Endpoints/Hosts/Accounting.antt =====
-- The counters of a bulk action on hosts.
use Prim.Native.String.{String}
use homelabs_siem_soar.Prelude.{
  ℕ, suc, ◌+◌, ◌≡◌, ◌≤◌, refl, ap, ◌∙◌, Bool, true, false, not, none, some, List, [], ◌∷◌, arith,
  length, count_by, if◌then◌else◌,
}
use homelabs_siem_soar.Prelude.IdSet.{size}
use homelabs_siem_soar.Endpoints.Hosts.{
  Page, Progress, BulkRun, BulkAction, handle_bulk_action, bulk_tick, bulk_turn, bulk_done,
  bulk_tick_found,
}

-- The timers of a bulk action go off one after the other.
unfoldable pub ticks : Page → List Bool → Page
ticks s [] = s
ticks s (b ∷ bs) = ticks (bulk_tick b s) bs

-- The progress after some turns of a run.
abbrev progress_after : BulkRun → List Bool → Progress
progress_after r bs = record {
  total = r.closed_size;
  completed = r.completed + count_by not bs;
  failures = r.failures + count_by (λ b. b) bs;
}

-- The run after one turn.
abbrev pub counted : Bool → BulkRun → BulkRun
counted b r = record r {
  completed = if b then r.completed else suc r.completed;
  failures = if b then suc r.failures else r.failures;
}

Progress-cong :
    {c d f g : ℕ} (n : ℕ)
    → c ≡ d
    → f ≡ g
    → Path Progress
        (record { total = n; completed = c; failures = f })
        (record { total = n; completed = d; failures = g })
Progress-cong n p q = rw (p, q) refl

progress_after-counted :
    (b : Bool) (r : BulkRun) (bs : List Bool)
    → progress_after (counted b r) bs ≡ progress_after r (b ∷ bs)
progress_after-counted true r bs = Progress-cong r.closed_size (omega arith) (omega arith)
progress_after-counted false r bs = Progress-cong r.closed_size (omega arith) (omega arith)

progress_now :
    (b : Bool) (r : BulkRun)
    → Path Progress
        (record {
          total = r.closed_size;
          completed = if b then r.completed else suc r.completed;
          failures = if b then suc r.failures else r.failures;
        })
        (progress_after (counted b r) [])
progress_now true r = Progress-cong r.closed_size (omega arith) (omega arith)
progress_now false r = Progress-cong r.closed_size (omega arith) (omega arith)

counts : (bs : List Bool) → count_by not bs + count_by (λ b. b) bs ≡ length bs
counts [] = refl
counts (true ∷ bs) = omega (arith, counts bs)
counts (false ∷ bs) = omega (arith, counts bs)

abbrev pub begun : BulkAction → Page → BulkRun
begun action s = record {
  action = action;
  closed_data = s.table.value;
  closed_size = size s.selected_ids;
  queue = s.selected_ids;
  completed = 0;
  failures = 0;
}

begun_lem :
    (action : BulkAction) (s : Page)
    → ((handle_bulk_action action s).bulk_run
        ≡ some (record (begun action s) { queue = s.selected_ids }))
      × ((handle_bulk_action action s).bulk_progress ≡ some (progress_after (begun action s) []))
unfolding handle_bulk_action
begun_lem action s = (refl, refl)

pub bulk_tick-turn :
    (b : Bool) (r : BulkRun) (id : String) (rest : List String) (s : Page)
    → s.bulk_run ≡ some (record r { queue = id ∷ rest })
    → bulk_tick b s ≡ bulk_turn b (record r { queue = id ∷ rest }) id rest s
unfolding bulk_tick
bulk_tick-turn b r id rest s e = ap (λ o. bulk_tick_found b o s) e

ticks-progress :
    (r : BulkRun) (q : List String) (bs : List Bool) (s : Page)
    → s.bulk_run ≡ some (record r { queue = q })
    → s.bulk_progress ≡ some (progress_after r [])
    → length bs ≤ length q
    → (ticks s bs).bulk_progress ≡ some (progress_after r bs)
unfolding ticks bulk_turn
ticks-progress r q [] s e p h = p
ticks-progress r [] (b ∷ bs) s e p h = ground arith
ticks-progress r (id ∷ rest) (b ∷ bs) s e p h =
    ap (λ t. (ticks t bs).bulk_progress) (bulk_tick-turn b r id rest s e)
    ∙ ticks-progress (counted b r) rest bs (bulk_turn b (record r { queue = id ∷ rest }) id rest s)
        refl (ap some (progress_now b r)) (omega arith)
    ∙ ap some (progress_after-counted b r bs)

bulk_tick-over :
    (c : Bool) (r : BulkRun) (s : Page)
    → s.bulk_run ≡ some (record r { queue = [] })
    → ((bulk_tick c s).selected_ids ≡ [])
      × ((bulk_tick c s).bulk_run ≡ none)
      × ((bulk_tick c s).bulk_progress ≡ none)
unfolding bulk_tick bulk_done
bulk_tick-over c r s e = rw e (refl, refl, refl)

-- A run that has come to its last id is over at the next timer.
ticks-over :
    (c : Bool) (r : BulkRun) (q : List String) (bs : List Bool) (s : Page)
    → s.bulk_run ≡ some (record r { queue = q })
    → length bs ≡ length q
    → ((bulk_tick c (ticks s bs)).selected_ids ≡ [])
      × ((bulk_tick c (ticks s bs)).bulk_run ≡ none)
      × ((bulk_tick c (ticks s bs)).bulk_progress ≡ none)
unfolding ticks bulk_turn
ticks-over c r [] [] s e h = bulk_tick-over c r s e
ticks-over c r [] (b ∷ bs) s e h = ground arith
ticks-over c r (id ∷ rest) [] s e h = ground arith
ticks-over c r (id ∷ rest) (b ∷ bs) s e h = rw (bulk_tick-turn b r id rest s e) (
    ticks-over c (counted b r) rest bs (bulk_turn b (record r { queue = id ∷ rest }) id rest s) refl
      (omega arith))

-- While a bulk action runs, its progress counts each host that it has come to once, as completed or
-- as failed, out of the number of hosts that were selected; after the last host the next timer
-- empties the selection and puts the progress away.
pub bulk_progress_accounts :
    (action : BulkAction) (s : Page) (bs : List Bool)
    → length bs ≤ size s.selected_ids
    → ((ticks (handle_bulk_action action s) bs).bulk_progress
        ≡ some (record {
          total = size s.selected_ids;
          completed = count_by not bs;
          failures = count_by (λ b. b) bs;
        }))
      × (count_by not bs + count_by (λ b. b) bs ≡ length bs)
      × (length bs ≡ size s.selected_ids
          → (c : Bool)
          → ((bulk_tick c (ticks (handle_bulk_action action s) bs)).selected_ids ≡ [])
            × ((bulk_tick c (ticks (handle_bulk_action action s) bs)).bulk_run ≡ none)
            × ((bulk_tick c (ticks (handle_bulk_action action s) bs)).bulk_progress ≡ none))
bulk_progress_accounts action s bs h =
    let r = begun action s in
    (
      ticks-progress r s.selected_ids bs (handle_bulk_action action s) (begun_lem action s).0
            (begun_lem action s).1 h
          ∙ ap some (Progress-cong (size s.selected_ids) (omega arith) (omega arith)),
      counts bs,
      λ e c.
          ticks-over c r s.selected_ids bs (handle_bulk_action action s) (begun_lem action s).0 e,
    )
