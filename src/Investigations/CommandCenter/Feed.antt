-- ===== src/Investigations/CommandCenter/Feed.antt =====
-- Order and identity of the alerts that the command centre lists.
use text.Mathlib.Text.{◌==◌ as str_eq}
use text.Mathlib.TextEquality.{eq_iff}
use mathlib.Core.Path.{subst}
use homelabs_siem_soar.Prelude.{
  ℕ, ◌≤◌, ◌≡◌, refl, ◌∙◌, Bool, true, false, ◌||◌, Option, none, some, List, [], ◌∷◌, ◌++◌, arith,
  any, filter_by, All, is_empty, leb, inl, inr, Bool-cases,
}
use homelabs_siem_soar.Prelude.Sort.{
  insert_desc, sort_desc, IsDescending, of_key, sort-IsDescending, sort-of_key, insert-any,
  sort-any,
}
use homelabs_siem_soar.Investigations.Types.{Alert}
use homelabs_siem_soar.Investigations.CommandCenter.{
  is_listed, on_alert, is_critical, FeedEvent, loaded, streamed, acknowledged, feed_step, feed,
}

abbrev pub HasDistinctIds : List Alert → Type 0
HasDistinctIds [] = Unit
HasDistinctIds (a ∷ xs) = (is_listed a.id xs ≡ false) × HasDistinctIds xs

insert-HasDistinctIds :
    (a : Alert) (xs : List Alert)
    → is_listed a.id xs ≡ false
    → HasDistinctIds xs
    → HasDistinctIds (insert_desc (λ x. x.severity) a xs)
unfolding insert_desc
insert-HasDistinctIds a [] n h = (refl, tt)
insert-HasDistinctIds a (b ∷ bs) n h = elim (Bool-cases (leb b.severity a.severity)) [
  | inl e ↦ rw e (n, h)
  | inr e ↦ rw e (
    insert-any (λ x. x.severity) (λ c. str_eq c.id b.id) a bs
        ∙ ground (arith, eq_iff a.id b.id, eq_iff b.id a.id),
    insert-HasDistinctIds a bs (ground arith) h.1,
  )
]

sort-HasDistinctIds :
    (xs : List Alert) → HasDistinctIds xs → HasDistinctIds (sort_desc (λ x. x.severity) xs)
unfolding sort_desc
sort-HasDistinctIds [] h = tt
sort-HasDistinctIds (a ∷ xs) h =
    insert-HasDistinctIds a (sort_desc (λ x. x.severity) xs)
      (sort-any (λ x. x.severity) (λ c. str_eq c.id a.id) xs ∙ h.0) (sort-HasDistinctIds xs h.1)

filter-any :
    (p q : Alert → Bool) (xs : List Alert) → any p xs ≡ false → any p (filter_by q xs) ≡ false
filter-any p q [] h = refl
filter-any p q (a ∷ xs) h = ground (arith, filter-any p q xs)

filter-HasDistinctIds :
    (q : Alert → Bool) (xs : List Alert) → HasDistinctIds xs → HasDistinctIds (filter_by q xs)
filter-HasDistinctIds q [] h = tt
filter-HasDistinctIds q (a ∷ xs) h = elim (Bool-cases (q a)) [
  | inl e ↦ rw e (filter-any (λ c. str_eq c.id a.id) q xs h.0, filter-HasDistinctIds q xs h.1)
  | inr e ↦ rw e (filter-HasDistinctIds q xs h.1)
]

on_alert-HasDistinctIds :
    (o : Option Alert) (xs : List Alert) → HasDistinctIds xs → HasDistinctIds (on_alert o xs)
unfolding on_alert
on_alert-HasDistinctIds none xs h = h
on_alert-HasDistinctIds (some a) xs h = elim (Bool-cases (is_empty a.id)) [
  | inl e ↦ rw e h
  | inr e ↦ rw e (elim (Bool-cases (is_listed a.id xs)) [
    | inl old ↦ rw old h
    | inr new ↦ rw new (sort-HasDistinctIds (a ∷ xs) (new, h))
  ])
]

-- The lists that are loaded have distinct ids.
abbrev LoadsDistinct : FeedEvent → Type 0
LoadsDistinct (loaded (some xs)) = HasDistinctIds xs
LoadsDistinct _ = Unit

feed_step-HasDistinctIds :
    (e : FeedEvent) (xs : List Alert)
    → LoadsDistinct e
    → HasDistinctIds xs
    → HasDistinctIds (feed_step e xs)
unfolding feed_step
feed_step-HasDistinctIds (loaded none) xs l h = h
feed_step-HasDistinctIds (loaded (some ys)) xs l h = l
feed_step-HasDistinctIds (streamed a) xs l h = on_alert-HasDistinctIds a xs h
feed_step-HasDistinctIds (acknowledged false id) xs l h = h
feed_step-HasDistinctIds (acknowledged true id) xs l h = filter-HasDistinctIds _ xs h

feed-HasDistinctIds :
    (es : List FeedEvent) (xs : List Alert)
    → All LoadsDistinct es
    → HasDistinctIds xs
    → HasDistinctIds (feed xs es)
unfolding feed
feed-HasDistinctIds [] xs l h = h
feed-HasDistinctIds (e ∷ es) xs l h =
    feed-HasDistinctIds es (feed_step e xs) l.1 (feed_step-HasDistinctIds e xs l.0 h)

-- If the lists that are loaded have distinct ids, so has the feed after any loads, streamed alerts
-- and acknowledgements, which starts empty: an alert that is streamed twice is listed once.
pub feed_ids_distinct : (es : List FeedEvent) → All LoadsDistinct es → HasDistinctIds (feed [] es)
feed_ids_distinct es l = feed-HasDistinctIds es [] l tt

-- A streamed alert with an id that is not listed yet leaves the feed in falling order of severity
-- numbers, with the same alerts as before and the new one: for each number, those of that number in
-- their old order, the new one in front of its equals. An alert with an empty or a listed id changes
-- nothing.
on_alert_sorts :
    (a : Alert) (prev : List Alert)
    → (is_empty a.id ≡ false
        → is_listed a.id prev ≡ false
        → IsDescending (λ x. x.severity) (on_alert (some a) prev)
          × ((k : ℕ)
              → of_key (λ x. x.severity) k (on_alert (some a) prev)
                ≡ of_key (λ x. x.severity) k (a ∷ prev)))
      × ((is_empty a.id || is_listed a.id prev) ≡ true → on_alert (some a) prev ≡ prev)
unfolding on_alert
on_alert_sorts a prev = (
  λ e n.
      rw (e, n)
        (
          sort-IsDescending (λ x. x.severity) (a ∷ prev),
          λ k. sort-of_key (λ x. x.severity) k (a ∷ prev),
        ),
  λ h. ground arith,
)

critical_of_le :
    (a : Alert) (xs : List Alert)
    → is_critical a ≡ true
    → All (λ b. b.severity ≤ a.severity) xs
    → All (λ b. is_critical b ≡ true) xs
critical_of_le a [] c h = tt
critical_of_le a (b ∷ xs) c h = (ground arith, critical_of_le a xs c h.1)

after_critical :
    (before xs : List Alert) (a : Alert)
    → IsDescending (λ x. x.severity) (before ++ a ∷ xs)
    → is_critical a ≡ true
    → All (λ b. is_critical b ≡ true) xs
after_critical [] xs a h c = critical_of_le a xs c h.0
after_critical (b ∷ before) xs a h c = after_critical before xs a h.1 c

-- After a new alert has been streamed, whatever follows a critical alert in the feed is critical: the
-- critical alerts, which have the smallest numbers, stand at the end of the list and not at its head.
critical_alerts_last :
    (new a : Alert) (prev before rest : List Alert)
    → is_empty new.id ≡ false
    → is_listed new.id prev ≡ false
    → on_alert (some new) prev ≡ before ++ a ∷ rest
    → is_critical a ≡ true
    → All (λ b. is_critical b ≡ true) rest
critical_alerts_last new a prev before rest e n q c =
    after_critical before rest a
      (subst (IsDescending (λ x. x.severity)) q ((on_alert_sorts new prev).0 e n).0) c
