-- ===== src/Detection/IocSearch/Kinds.antt =====
-- The type of an indicator, against the parts between its dots.
use Prim.Native.Char.{Char, code}
use Prim.Native.String.{String}
use homelabs_siem_soar.Prelude.{
  ℕ, ◌-◌, Bool, true, false, not, ◌&&◌, ◌||◌, List, [], ◌∷◌, length, all, ◌==◌, split_at,
  onto_first, is_prefix, is_empty, includes, if◌then◌else◌, ◌≡◌, refl, arith,
}
use homelabs_siem_soar.Detection.IocSearch.{IocType, is_digit, matches_groups, type_of_ioc}

abbrev all_digits : String → Bool
all_digits String.[] = true
all_digits (String.◌∷◌ c s) = is_digit (code c) && all_digits s

abbrev is_numeral : String → Bool
is_numeral part = not (is_empty part) && all_digits part

-- What the parts of a text must be for the expression to match, its first group begun or not.
abbrev groups_in : ℕ → Bool → List String → Bool
groups_in groups started [] = false
groups_in groups started (part ∷ parts) =
    (started || not (is_empty part))
    && all_digits part
    && length parts == groups
    && all is_numeral parts

onto-cons :
    (b : Bool) (c : Char) (parts : List String)
    → (first : String) × ((rest : List String) × ((if b
            then String.[] ∷ parts
            else onto_first c parts)
          ≡ first ∷ rest))
onto-cons true c parts = (String.[], (parts, refl))
onto-cons false c [] = (String.◌∷◌ c String.[], ([], refl))
onto-cons false c (part ∷ parts) = (String.◌∷◌ c part, (parts, refl))

split_at-cons :
    (sep : ℕ) (s : String)
    → (first : String) × ((rest : List String) × (split_at sep s ≡ first ∷ rest))
unfolding split_at
split_at-cons sep String.[] = (String.[], ([], refl))
split_at-cons sep (String.◌∷◌ c s) = onto-cons (code c == sep) c (split_at sep s)

groups_step :
    (groups : ℕ) (started : Bool) (c : Char) (part : String) (parts : List String)
    → (if is_digit (code c)
        then groups_in groups true (part ∷ parts)
        else (code c == 46
            && started
            && not (groups == 0)
            && groups_in (groups - 1) false (part ∷ parts)))
      ≡ groups_in groups started
          (if code c == 46 then String.[] ∷ (part ∷ parts) else onto_first c (part ∷ parts))
groups_step groups started c part parts = ground arith

matches-groups :
    (groups : ℕ) (started : Bool) (s : String)
    → matches_groups groups started s ≡ groups_in groups started (split_at 46 s)
unfolding matches_groups split_at
matches-groups groups started String.[] = ground arith
matches-groups groups started (String.◌∷◌ c s) =
    let (first, (rest, is_split)) = split_at-cons 46 s in
    let within = matches-groups groups true s in
    let after = matches-groups (groups - 1) false s in
    let one = groups_step groups started c first rest in cc

-- The type that the parts between the dots give an indicator.
unfoldable pub type_of_parts : List String → IocType
type_of_parts [] = IocType.hash
type_of_parts (part ∷ []) = IocType.hash
type_of_parts (part ∷ next ∷ parts) =
    let all_parts = part ∷ next ∷ parts in
    if length all_parts == 4 && all is_numeral all_parts then IocType.ip else IocType.domain

dot_step :
    (c : Char) (first : String) (rest : List String)
    → (46 == code c && true || not (length (first ∷ rest) == 1))
      ≡ not (
          length (if code c == 46 then String.[] ∷ first ∷ rest else onto_first c (first ∷ rest))
          == 1)
dot_step c first rest = ground arith

includes-dot : (s : String) → includes s "." ≡ not (length (split_at 46 s) == 1)
unfolding includes is_prefix split_at
includes-dot String.[] = refl
includes-dot (String.◌∷◌ c s) =
    let (first, (rest, is_split)) = split_at-cons 46 s in
    let after = includes-dot s in let one = dot_step c first rest in cc

parts_step :
    (first : String) (rest : List String)
    → (if not (length (first ∷ rest) == 1)
        then if groups_in 3 false (first ∷ rest) then IocType.ip else IocType.domain
        else IocType.hash)
      ≡ type_of_parts (first ∷ rest)
unfolding type_of_parts
parts_step first [] = refl
parts_step first (next ∷ rest) = ground arith

-- An indicator without a dot has the type hash; one with dots is an address exactly if the dots divide
-- it into four parts, each of which is one or more digits, and is a domain otherwise.
pub type_of_ioc-parts : (ioc : String) → type_of_ioc ioc ≡ type_of_parts (split_at 46 ioc)
unfolding type_of_ioc
type_of_ioc-parts ioc =
    let (first, (rest, is_split)) = split_at-cons 46 ioc in
    let dot = includes-dot ioc in
    let groups = matches-groups 3 false ioc in let one = parts_step first rest in cc
