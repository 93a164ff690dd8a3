-- ===== src/Crawler.antt =====
-- internal/crawler/crawler.go: the connection of the firehose to one source relay, as a state machine.
-- Each step is one way on of the loop of runSource; times are seconds. The events of a subscription
-- go to the ingest component; here they only keep the idle timer from firing.
pub mod Reconnect
mod Tests
use archive_relay.Prelude.{
  ℕ, ◌+◌, ◌-◌, ◌*◌, Bool, true, false, not, ◌||◌, Option, none, some, List, [], ◌∷◌, ltb, nat_eq,
  if◌then◌else◌,
}

abbrev pub reconnect_overlap : ℕ
reconnect_overlap = 2 * 3600

-- `none` is the zero time.
unfoldable pub since_for_reconnect : Bool → Option ℕ → Option ℕ
since_for_reconnect backfill_complete none = none
since_for_reconnect backfill_complete (some last_disconnect) =
    let sec = last_disconnect - reconnect_overlap in
    if not backfill_complete || nat_eq sec 0 then none else some sec

unfoldable pub next_backoff : ℕ → ℕ
next_backoff d = let doubled = d * 2 in if ltb 60 doubled then 60 else doubled

pub record Source : Type 0 where
  pub backoff : ℕ
  pub backfill_complete : Bool
  pub last_disconnect : Option ℕ
  pub slept : ℕ  -- the seconds of the last sleepCtx
  pub subscribed : Option (Option ℕ)  -- the since of the live subscription

unfoldable pub new_source : Source
new_source = record {
  backoff = 1;
  backfill_complete = false;
  last_disconnect = none;
  slept = 0;
  subscribed = none;
}

-- What the source relay does, or the idle timer.
pub data Happens : Type 0 where
  connect_fails subscribe_fails subscribes eose : Happens
  closes idles events_end : ℕ → Happens  -- at this time

abbrev pub disconnect : ℕ → ℕ → Source → Source
disconnect now sleep c = record c { last_disconnect = some now; slept = sleep; subscribed = none }

-- The head of the loop, with no subscription.
unfoldable pub connect : Happens → Source → Source
connect connect_fails c = record c { slept = c.backoff; backoff = next_backoff c.backoff }
connect subscribe_fails c = record c { backoff = 1; slept = 2 }
connect subscribes c = record c {
  backoff = 1;
  subscribed = some (since_for_reconnect c.backfill_complete c.last_disconnect);
}
connect happens c = c

-- The inner select, on a live subscription.
unfoldable pub listen : Happens → Source → Source
listen eose c = record c { backfill_complete = true }
listen (closes now) c = disconnect now 2 c
listen (idles now) c = disconnect now 0 c
listen (events_end now) c = disconnect now 0 c
listen happens c = c

unfoldable pub turn : Option (Option ℕ) → Happens → Source → Source
turn none happens c = connect happens c
turn (some since) happens c = listen happens c

unfoldable pub run_source : List Happens → Source → Source
run_source [] c = c
run_source (h ∷ hs) c = run_source hs (turn c.subscribed h c)
