-- ===== src/Detection/ThreatFeeds/AddFeed.antt =====
-- The form for a new feed.
use Prim.Native.String.{String}
use homelabs_siem_soar.Prelude.{suc, ◌≡◌, refl, false, Option, none, some, ◌∷◌, is_empty, text_or}
use homelabs_siem_soar.Detection.ThreatFeeds.{
  Page, Failure, succeeded, failed_with, blank_feed, add_failure, add_settled, add_ended,
  handle_add_feed, execute,
}

text_or-full :
    (o : Option String) (d : String) → is_empty d ≡ false → is_empty (text_or o d) ≡ false
text_or-full none d h = h
text_or-full (some String.[]) d h = h
text_or-full (some (String.◌∷◌ c s)) d h = refl

-- A submit sends what the form shows and clears the error. If the request succeeds, the form is closed
-- and blank, its credential too, and the table loads again. If it fails, the form stays open as it
-- was typed, and an error is shown whatever texts the failure carries.
add_feed_effect :
    (s : Page) (f : Failure)
    → let sent = handle_add_feed s in
      let added = add_settled succeeded sent in
      let kept = add_settled (failed_with f) sent in
      (sent.posted_feeds ≡ s.new_feed ∷ s.posted_feeds)
      × (sent.add_error ≡ "")
      × (added.new_feed ≡ blank_feed)
      × (added.show_add_modal ≡ false)
      × (added.loads ≡ suc s.loads)
      × (kept.new_feed ≡ s.new_feed)
      × (kept.show_add_modal ≡ s.show_add_modal)
      × (is_empty kept.add_error ≡ false)
unfolding handle_add_feed add_settled add_ended execute add_failure
add_feed_effect s f = (
  refl,
  refl,
  refl,
  refl,
  refl,
  refl,
  refl,
  text_or-full f.response_message (text_or f.message fallback)
      (text_or-full f.message fallback refl),
)
  where
    fallback : String
    fallback = "Failed to add feed"
