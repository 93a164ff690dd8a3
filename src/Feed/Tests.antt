-- ===== src/Feed/Tests.antt =====
-- internal/store/feed.go with two notes, of which one is still queued at the stop.
use archive_relay.Prelude.{◌≡◌, refl, true, false, List, [], ◌∷◌}
use archive_relay.Samples.{note_a, note_b}
use archive_relay.Feed.{
  new_feed_writer, offer, flush_feed, receive_event, drain_feed, stop_feed, FeedAction, offers,
  receives, ticks, stops, run_feed, run_all,
}
use archive_relay.Feed.Account.{IsCounted, run_all-new}

abbrev two_notes : List FeedAction
two_notes =
    offers note_a
    ∷ receives true
    ∷ ticks false
    ∷ offers note_b
    ∷ stops (λ i. true)
    ∷ ticks true
    ∷ []

both_flushed :
    (run_all two_notes new_feed_writer).batches ≡ (false, note_a ∷ []) ∷ (true, note_b ∷ []) ∷ []
unfolding run_all run_feed offer receive_event flush_feed stop_feed drain_feed new_feed_writer
both_flushed = refl

run_all-new_example : IsCounted (run_all two_notes new_feed_writer)
run_all-new_example = run_all-new two_notes
