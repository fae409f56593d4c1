-- ===== src/Endpoints/Hosts/BulkUpdate.antt =====
-- What a bulk update leaves in the table of hosts.
use Prim.Native.String.{String}
use text.Mathlib.Text.{◌==◌ as str_eq}
use homelabs_siem_soar.Prelude.{
  suc, ◌≡◌, refl, ap, ◌∙◌, Bool, false, some, List, [], ◌∷◌, ◌++◌, map, arith, length,
}
use homelabs_siem_soar.Endpoints.Fleet.{Host}
use homelabs_siem_soar.Endpoints.Hosts.{
  Page, BulkRun, update, handle_bulk_action, bulk_turn, to_latest, set_updated,
}
use homelabs_siem_soar.Endpoints.Hosts.Accounting.{ticks, begun, bulk_tick-turn, counted}

ticks-table :
    (r : BulkRun) (hs : List Host) (ids : List String) (last : String) (bs : List Bool) (s : Page)
    → s.bulk_run ≡ some (record r { queue = ids ++ last ∷ [] })
    → r.action ≡ update
    → r.closed_data ≡ some hs
    → length bs ≡ suc (length ids)
    → (ticks s bs).table.value ≡ some (map (to_latest last) hs)
unfolding ticks bulk_turn set_updated
ticks-table r hs ids last [] s e a d h = ground arith
ticks-table r hs [] last (b ∷ []) s e a d h =
    ap (λ t. t.table.value) (bulk_tick-turn b r last [] s e) ∙ (rw (a, d) refl)
ticks-table r hs [] last (b ∷ c ∷ bs) s e a d h = ground arith
ticks-table r hs (id ∷ ids) last (b ∷ bs) s e a d h =
    ap (λ t. (ticks t bs).table.value) (bulk_tick-turn b r id (ids ++ last ∷ []) s e)
    ∙ ticks-table (counted b r) hs ids last bs
        (bulk_turn b (record r { queue = id ∷ ids ++ last ∷ [] }) id (ids ++ last ∷ []) s) refl a d
        (omega arith)

-- A bulk update of the hosts `ids` and then `last`, once each of them had its turn, leaves the table
-- that stood when the update was started with the baseline version at the host `last` alone, whether
-- a turn failed or not and whatever the turns before it had written; so a host with another id keeps
-- the agent version it had.
pub bulk_update_keeps_last :
    (s : Page) (hs : List Host) (ids : List String) (last : String) (bs : List Bool)
    → s.table.value ≡ some hs
    → s.selected_ids ≡ ids ++ last ∷ []
    → length bs ≡ suc (length ids)
    → ((ticks (handle_bulk_action update s) bs).table.value ≡ some (map (to_latest last) hs))
      × ((h : Host) → (str_eq h.id last) ≡ false → to_latest last h ≡ h)
unfolding handle_bulk_action to_latest
bulk_update_keeps_last s hs ids last bs v q h =
    let r = begun update s in
    (
      ticks-table r hs ids last bs (handle_bulk_action update s)
          (ap (λ ids. some (record r { queue = ids })) q) refl v h,
      λ host e. rw e refl,
    )
