-- ===== src/Lookup.antt =====
-- internal/store/store.go: QueryEvents, as khatru calls it for a client and for itself. What ClickHouse
-- answers depends on the state of the store. The channel that the rows are streamed on is left out.
pub mod Flushed
mod Tests
use archive_relay.Prelude.{ℕ, Bool, true, false, Option, none, some, List, if◌then◌else◌}
use archive_relay.Nostr.{Event, Filter}
use archive_relay.Classifier.{Tier, Override}
use archive_relay.Reads.{collect_events}
use archive_relay.Store.{Backend, flush_all}

-- The answers to the query of a tier, and to the two of the feed; `none` is an error.
pub record Answers (S : Type 0) : Type 0 where
  pub tier : S → Tier → Option (List Event)
  pub plain : S → Option (List Event)
  pub replaceable : S → Option (List Event)

pub data Queried : Type 0 where
  read_busy query_failed : Queried
  streams : List Event → Queried

abbrev pub queried : Option (List Event) → Queried
queried none = query_failed
queried (some rows) = streams rows

module _ {S : Type 0} (backend : Backend S) (override : Override) (answers : Answers S)
    (has_feed : Bool) (now : ℕ) (f : Filter) where
  unfoldable pub collected : S → Queried
  collected s = queried (
      collect_events has_feed now f override (answers.tier s) (answers.plain s)
        (answers.replaceable s))

  abbrev pub if_admitted : Bool × S → Queried × S
  if_admitted (ok, s) = if ok then (collected s, s) else (read_busy, s)

  -- An internal call flushes first, and goes past the admission; the error of its flush is logged.
  unfoldable pub query_events : Bool → S → Queried × S
  query_events internal s =
      if internal
      then (let s' = (flush_all backend override s).1 in (collected s', s'))
      else if_admitted (backend.admit s)
