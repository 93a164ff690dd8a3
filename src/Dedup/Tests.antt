-- ===== src/Dedup/Tests.antt =====
-- internal/crawler/dedup.go on small caches.
use archive_relay.Prelude.{
  ℕ, ◌+◌, ◌*◌, ◌≤◌, ◌≡◌, refl, true, false, [], ◌∷◌, some, arith, length, contains, eq_bytes,
  bytes_eq, replicate,
}
use archive_relay.Samples.{id_a, id_b, note_a, note_b}
use archive_relay.Dedup.{
  Dedup, new_dedup, seen, check_and_mark, unmark, warm, write_queue_cap, ref_of,
}
use archive_relay.Dedup.Hex.{
  hex_encode, parse_event_id-hex_encode, Key, parse_event_id, hex_encode, parse_event_id-hex_encode,
}
use archive_relay.Dedup.Cache.{same_key}
use archive_relay.Dedup.Lookback.{checks, unmarks, run, check_and_mark-wins_once}
use archive_relay.Dedup.Bounds.{run-warm-IsBounded}
use archive_relay.Dedup.Writer.{Outcome, written}

abbrev pub key_a : Key
key_a = replicate 32 170

abbrev one_mark : Dedup
one_mark = (check_and_mark 2 9 id_a new_dedup).1

pub parse_event_id_a : parse_event_id id_a ≡ some key_a
unfolding parse_event_id archive_relay.Dedup.Hex.hex_decode archive_relay.Dedup.Hex.from_hex_digit
    archive_relay.Dedup.Hex.join_byte
parse_event_id_a = refl

parse_event_id-hex_encode_example : parse_event_id (hex_encode key_a) ≡ some key_a
parse_event_id-hex_encode_example = parse_event_id-hex_encode key_a refl (omega arith)

won_a : (check_and_mark 2 9 id_a new_dedup).0 ≡ true
unfolding check_and_mark archive_relay.Dedup.check_and_mark_key parse_event_id
    archive_relay.Dedup.Hex.hex_decode archive_relay.Dedup.Hex.from_hex_digit
    archive_relay.Dedup.Hex.join_byte new_dedup contains
won_a = refl

spared_b : same_key id_b id_a ≡ false
unfolding parse_event_id archive_relay.Dedup.Hex.hex_decode archive_relay.Dedup.Hex.from_hex_digit
    archive_relay.Dedup.Hex.join_byte bytes_eq
spared_b = refl

check_and_mark-wins_once_example :
    let d = run 2 (checks 10 id_b ∷ unmarks id_b ∷ []) one_mark in
    (seen id_a d ≡ true) × ((check_and_mark 2 11 id_a d).0 ≡ false)
check_and_mark-wins_once_example =
    check_and_mark-wins_once 2 id_a key_a parse_event_id_a 9 11 (checks 10 id_b ∷ unmarks id_b ∷ [])
      new_dedup won_a (omega arith) (tt, (spared_b, tt))

run-warm-IsBounded_example :
    let d = run 2 (checks 10 id_b ∷ []) (warm (id_a ∷ id_b ∷ []) new_dedup) in
    (length d.cur + length d.prev ≤ 2 * 2 + 1) × (length d.write_q ≤ write_queue_cap)
run-warm-IsBounded_example =
    run-warm-IsBounded 2 (id_a ∷ id_b ∷ []) (checks 10 id_b ∷ []) (omega arith)

abbrev queued_a : Dedup
queued_a = record {
  cur = [];
  prev = [];
  write_q = (ref_of note_a ∷ []) ∷ (ref_of note_b ∷ []) ∷ [];
  dropped_writes = 0;
  dropped_bad_id = 0;
  last_event = 0;
  writer_running = true;
}

abbrev all_written : ℕ → Outcome
all_written _ = written
