-- ===== src/Incidents/Active/Selection.antt =====
-- The selection of the page of active incidents as a set.
use Prim.Native.String.{String}
use text.Mathlib.Text.{◌==◌ as str_eq}
use homelabs_siem_soar.Prelude.{◌≡◌, not, if◌then◌else◌, arith}
use homelabs_siem_soar.Prelude.IdSet.{toggle, has-toggle}
use homelabs_siem_soar.Prelude.Members.{Members, members, members_ext, is_in}
use homelabs_siem_soar.Incidents.Active.{Page, toggle_select}

-- What the page reads of its selection: which ids it has.
abbrev pub selection : Page → Members
selection s = members s.selected_ids

-- A click on the checkbox of an incident selects it if it was not selected and else takes it out, and
-- leaves every other incident as it was. Two clicks on one checkbox leave the set of the selected ids as
-- it was, and clicks on two of them may come in either order.
pub clicks_flip :
    (s : Page) (a b : String)
    → ((id : String)
        → is_in id (selection (toggle_select a s))
          ≡ (if str_eq a id then not (is_in id (selection s)) else is_in id (selection s)))
      × (selection (toggle_select a (toggle_select a s)) ≡ selection s)
      × (selection (toggle_select a (toggle_select b s))
          ≡ selection (toggle_select b (toggle_select a s)))
unfolding toggle_select is_in
clicks_flip s a b =
    let ids = s.selected_ids in
    (
      λ id. has-toggle ids a id,
      members_ext (λ id. ground (arith, has-toggle (toggle ids a) a id, has-toggle ids a id)),
      members_ext (λ id. ground (
        arith,
        has-toggle (toggle ids b) a id,
        has-toggle ids b id,
        has-toggle (toggle ids a) b id,
        has-toggle ids a id,
      )),
    )
