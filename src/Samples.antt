-- ===== src/Samples.antt =====
-- Events and ids that the tests share.
use archive_relay.Prelude.{ℕ, Bytes, bytes, []}
use archive_relay.Nostr.{Event}

abbrev pub id_a : Bytes
id_a = bytes "aaaaaaaaaaaaaaaaaaaaaaaaaaaaaaaaaaaaaaaaaaaaaaaaaaaaaaaaaaaaaaaa"

abbrev pub id_b : Bytes
id_b = bytes "bbbbbbbbbbbbbbbbbbbbbbbbbbbbbbbbbbbbbbbbbbbbbbbbbbbbbbbbbbbbbbbb"

abbrev pub event_of : Bytes → ℕ → Event
event_of id kind = record {
  id = id;
  pubkey = bytes "alice";
  created_at = 1000;
  kind = kind;
  tags = [];
  content = bytes "hi";
  sig = [];
}

abbrev pub note_a : Event
note_a = event_of id_a 1

abbrev pub note_b : Event
note_b = event_of id_b 1

abbrev pub profile_a : Event
profile_a = event_of id_a 0
