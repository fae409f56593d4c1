-- ===== src/Prelude/Members.antt =====
-- The set of the ids that a `Set<string>` holds, which forgets their order.
use Prim.Native.String.{String}
use mathlib.Core.Path.{◌≡◌}
use mathlib.Core.Bool.{Bool, Bool-set}
use mathlib.Core.Quot
use mathlib.Core.Quot.{Quot, Quot-set}
use homelabs_siem_soar.Prelude.IdSet.{IdSet, has}

abbrev pub SameIds : IdSet → IdSet → Type 0
SameIds xs ys = (id : String) → has xs id ≡ has ys id

abbrev pub Members : Type 0
Members = Quot SameIds

abbrev pub members : IdSet → Members
members = Quot.mk

pub members_ext : {xs ys : IdSet} → SameIds xs ys → members xs ≡ members ys
members_ext = Quot.sound

-- Whether an id is in.
unfoldable pub is_in : String → Members → Bool
is_in id = Quot.lift Bool-set (λ xs. has xs id) (λ xs ys h. h id)
