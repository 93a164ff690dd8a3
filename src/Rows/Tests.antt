-- ===== src/Rows/Tests.antt =====
-- internal/store/batcher.go with a reply that names its root and its parent.
use archive_relay.Prelude.{◌≡◌, refl, bytes_eq, some, [], ◌∷◌, bytes, arith}
use archive_relay.Nostr.{Tags}
use archive_relay.Samples.{id_a, id_b, note_a}
use archive_relay.Rows.{role, reply_target, row_from_event, row_values, tier_columns, read_columns}
use archive_relay.Rows.Scanning.{HasColumns, inserted, selected, scanned, scan_event-row_values}

abbrev thread : Tags
thread =
    (bytes "e" ∷ id_a ∷ [] ∷ bytes "root" ∷ [])
    ∷ (bytes "e" ∷ id_b ∷ [] ∷ bytes "reply" ∷ [])
    ∷ (bytes "e" ∷ id_a ∷ [])
    ∷ []

reply_of_thread : reply_target thread ≡ id_b
unfolding reply_target archive_relay.Rows.reply_target_from role bytes_eq
reply_of_thread = refl

scan_event-row_values_example :
    let table = inserted tier_columns (row_values (λ tags. []) note_a) in
    HasColumns (row_from_event (λ tags. []) note_a) table
    × (scanned (selected read_columns table) ≡ some note_a)
scan_event-row_values_example =
    scan_event-row_values (λ tags. []) note_a (omega arith) (omega arith)
