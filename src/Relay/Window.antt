-- ===== src/Relay/Window.antt =====
-- internal/relay/relay.go: what the default window of a filter takes away, and where the store then
-- looks.
use archive_relay.Prelude.{
  ℕ, ◌+◌, ◌-◌, ◌*◌, ◌^◌, ◌≤◌, ◌≡◌, refl, Bool, true, false, not, ◌&&◌, ◌||◌, Option, none, some,
  leb, nat_eq, if◌then◌else◌, if-cases, arith,
}
use archive_relay.Nostr.{Event, Filter}
use archive_relay.Classifier.{Override}
use archive_relay.FilterSql.Matches.{matches, from}
use archive_relay.Reads.{no_time, any_dropped, feed_eligible, recent}
use archive_relay.Relay.{is_global, overwrite_filter}

-- The default window of `hours` applies to the filter.
abbrev pub windowed : ℕ → Filter → Bool
windowed hours f = not (nat_eq hours 0) && is_global f

from-no_time : (o : Option ℕ) (t : ℕ) → no_time o ≡ true → from o t ≡ true
from-no_time none t h = refl
from-no_time (some since) t h = cc

-- An event matches the filter that the relay makes of a filter exactly if it matches the filter itself
-- and, where that is a global feed and a default window is set, is not older than the window.
pub matches-overwrite_filter :
    (hours now : ℕ) (f : Filter) (evt : Event)
    → matches (overwrite_filter hours now f) evt
      ≡ (matches f evt && (not (windowed hours f) || leb (now - hours * 3600) evt.created_at))
unfolding overwrite_filter matches
matches-overwrite_filter hours now f evt =
    if-cases
      (λ (g : Filter).
        matches g evt
        ≡ (matches f evt && (not (windowed hours f) || leb (now - hours * 3600) evt.created_at)))
      (nat_eq hours 0 || not (is_global f)) (λ h. ground arith)
      (λ h. ground (arith, from-no_time f.since evt.created_at))

-- The clock of the hook is in seconds, that of the read in nanoseconds.
recent-window :
    (hours now now_ns : ℕ)
    → hours * 3600 ≤ now
    → now * 10 ^ 9 ≤ now_ns
    → now_ns ≤ (now + 3600) * 10 ^ 9
    → nat_eq hours 166 ≡ false
    → recent now_ns (some (now - hours * 3600)) ≡ leb hours 165
recent-window hours now now_ns a b c d = ground arith

-- A relay with a default window of up to 165 hours serves a global feed from events_feed, and with one
-- of 167 hours or more from the tiers, when the read comes within an hour of the hook and the kinds
-- are stored. Other filters are served from where they were.
pub feed_eligible-overwrite_filter :
    (hours now now_ns : ℕ) (f : Filter) (override : Override)
    → hours * 3600 ≤ now
    → now * 10 ^ 9 ≤ now_ns
    → now_ns ≤ (now + 3600) * 10 ^ 9
    → nat_eq hours 166 ≡ false
    → feed_eligible now_ns (overwrite_filter hours now f) override ≡ (
        if windowed hours f
        then leb hours 165 && not (any_dropped override f.kinds)
        else feed_eligible now_ns f override)
unfolding overwrite_filter feed_eligible
feed_eligible-overwrite_filter hours now now_ns f override a b c d =
    if-cases
      (λ (g : Filter). feed_eligible now_ns g override ≡ (
        if windowed hours f
        then leb hours 165 && not (any_dropped override f.kinds)
        else feed_eligible now_ns f override))
      (nat_eq hours 0 || not (is_global f)) (λ h. ground arith)
      (λ h. ground (arith, recent-window hours now now_ns a b c d))
