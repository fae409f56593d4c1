-- ===== src/Playbooks/Store/Overlaps.antt =====
-- Two executions at a time.
use homelabs_siem_soar.Prelude.{◌≡◌, refl, some, [], ◌∷◌}
use homelabs_siem_soar.Playbooks.Store.{
  Playbook, Execution, Store, succeeded, success, run_pressed, run_replied, selected, step, run,
  run_playbook, run_settled, run_ended,
}

-- With no execution in flight two are started, and the second one's playbook is selected. If the first
-- one ends last, the output that is shown beside the selected playbook is that of the other.
output_of_other_playbook :
    (s : Store) (a b : Playbook) (x y : Execution)
    → s.runs ≡ []
    → let t = run s (
        run_pressed a
        ∷ run_pressed b
        ∷ selected (some b)
        ∷ run_replied 1 (succeeded y)
        ∷ run_replied 0 (succeeded x)
        ∷ []) in
      (t.selected_playbook ≡ some b) × (t.playbook_output ≡ some (success x)) × (t.runs ≡ [])
unfolding run step run_playbook run_settled run_ended
output_of_other_playbook s a b x y n = rw n (refl, refl, refl)
