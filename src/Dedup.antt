-- ===== src/Dedup.antt =====
-- internal/crawler/dedup.go: the two-generation cache of seen event ids and the bounded queue of
-- batches for the durable table seen_events. Each method that runs under `d.mu` is one function on
-- the state; `cap` is the variable memCap and `now` the clock. A nil map is an empty list.
pub mod Hex
pub mod Cache
pub mod Lookback
pub mod Bounds
pub mod Queue
pub mod Writer
pub mod Tests
use archive_relay.Prelude.{
  ℕ, ◌+◌, ◌-◌, ◌%◌, ◌^◌, Bool, true, false, ◌||◌, Option, none, some, List, [], ◌∷◌, ◌++◌, map,
  Bytes, length, contains, insert, delete, eq_bytes, leb, ltb, nat_eq, if◌then◌else◌,
}
use archive_relay.Nostr.{Event}
use archive_relay.Control.{SeenRef}
use Hex.{Key, parse_event_id}

pub record Dedup : Type 0 where
  pub cur : List Key
  pub prev : List Key
  pub write_q : List (List SeenRef)
  pub dropped_writes : ℕ  -- uint64
  pub dropped_bad_id : ℕ  -- uint64
  pub last_event : ℕ
  pub writer_running : Bool

abbrev pub write_queue_cap : ℕ
write_queue_cap = 64

-- atomic.Uint64.Add(1)
abbrev pub add_one_u64 : ℕ → ℕ
add_one_u64 n = (n + 1) % 2 ^ 64

unfoldable pub new_dedup : Dedup
new_dedup = record {
  cur = [];
  prev = [];
  write_q = [];
  dropped_writes = 0;
  dropped_bad_id = 0;
  last_event = 0;
  writer_running = false;
}

unfoldable pub has_key : Key → Dedup → Bool
has_key key d = contains key d.cur || contains key d.prev

unfoldable pub seen_key : Option Key → Dedup → Bool
seen_key none d = false
seen_key (some key) d = has_key key d

unfoldable pub seen : Bytes → Dedup → Bool
seen id d = seen_key (parse_event_id id) d

module _ (cap now : ℕ) where
  unfoldable pub insert_locked : Key → Dedup → Dedup
  insert_locked key d =
      let cur = insert key d.cur in
      if leb cap (length cur)
      then record d { last_event = now; prev = cur; cur = [] }
      else record d { last_event = now; cur = cur }

  -- The methods after the call of parseEventID; `none` is an id that is not a key.
  unfoldable pub mark_key : Option Key → Dedup → Dedup
  mark_key none d = d
  mark_key (some key) d = insert_locked key d

  unfoldable pub mark : Bytes → Dedup → Dedup
  mark id d = mark_key (parse_event_id id) d

  unfoldable pub check_and_mark_key : Option Key → Dedup → Bool × Dedup
  check_and_mark_key none d = (true, d)
  check_and_mark_key (some key) d =
      if contains key d.cur
      then (false, d)
      else if contains key d.prev
      then (false, d)
      else (true, insert_locked key d)

  unfoldable pub check_and_mark : Bytes → Dedup → Bool × Dedup
  check_and_mark id d = check_and_mark_key (parse_event_id id) d

  unfoldable pub mark_many : List Bytes → Dedup → Dedup
  mark_many [] d = d
  mark_many (id ∷ ids) d = mark_many ids (mark id d)

unfoldable pub unmark_key : Option Key → Dedup → Dedup
unmark_key none d = d
unmark_key (some key) d = record d { cur = delete key d.cur; prev = delete key d.prev }

unfoldable pub unmark : Bytes → Dedup → Dedup
unmark id d = unmark_key (parse_event_id id) d

unfoldable pub warm_key : Option Key → Dedup → Dedup
warm_key none d = d
warm_key (some key) d = record d { cur = insert key d.cur }

-- The ids that the control database returned, at most `cap` of them.
unfoldable pub warm : List Bytes → Dedup → Dedup
warm [] d = d
warm (id ∷ ids) d = warm ids (warm_key (parse_event_id id) d)

unfoldable pub count_bad_id : Dedup → Dedup
count_bad_id d = record d { dropped_bad_id = add_one_u64 d.dropped_bad_id }

abbrev pub ref_of : Event → SeenRef
ref_of ev = record { id = ev.id; created_at = ev.created_at }

-- `select { case d.writeQ <- refs: default: }`
unfoldable pub offer_refs : List SeenRef → Dedup → Dedup
offer_refs refs d =
    if ltb (length d.write_q) write_queue_cap
    then record d { write_q = d.write_q ++ refs ∷ [] }
    else record d { dropped_writes = add_one_u64 d.dropped_writes }

unfoldable pub on_flushed : ℕ → ℕ → List Event → Dedup → Dedup
on_flushed cap now [] d = d
on_flushed cap now (ev ∷ evs) d =
    offer_refs (map ref_of (ev ∷ evs)) (mark_many cap now (map (λ e. e.id) (ev ∷ evs)) d)

-- LastEventAgo, in the unit of the clock: so long ago, or so far ahead of a clock that was set back.
pub data Age : Type 0 where
  ago ahead : ℕ → Age

unfoldable pub last_event_ago : ℕ → Dedup → Age
last_event_ago now d =
    if nat_eq d.last_event 0
    then ago 0
    else if leb d.last_event now
    then ago (now - d.last_event)
    else ahead (d.last_event - now)
