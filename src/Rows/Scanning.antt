-- ===== src/Rows/Scanning.antt =====
-- internal/store/batcher.go and internal/store/store.go: from an event to its row and back.
use archive_relay.Prelude.{
  ◌%◌, ◌^◌, ◌<◌, ◌≡◌, refl, ap, ◌∙◌, Option, none, some, List, [], ◌∷◌, Bytes, bytes, bytes_eq,
  eq_bytes, lookup, arith,
}
use archive_relay.Nostr.{Event, Tags}
use archive_relay.Texts.{split_texts, split, trim_space, trim_left, trim_right, is_space}
use archive_relay.Rows.{
  Value, string, uint32, array, Row, row_values, row_from_event, native_tags, nostr_tags,
  scan_event, tier_columns, read_columns,
}

-- An INSERT puts the first value into the first column that its text names, and so on.
abbrev pub columns : List Bytes → List Value → List (Bytes × Value)
columns [] values = []
columns (name ∷ names) [] = []
columns (name ∷ names) (v ∷ values) = (name, v) ∷ columns names values

abbrev pub inserted : Bytes → List Value → List (Bytes × Value)
inserted text values = columns (split_texts b',' text) values

abbrev pub with_value : Option Value → Option (List Value) → Option (List Value)
with_value none rest = none
with_value (some v) none = none
with_value (some v) (some vs) = some (v ∷ vs)

-- A SELECT answers the values of the columns that its text names, in their order.
abbrev pub named : List Bytes → List (Bytes × Value) → Option (List Value)
named [] row = some []
named (name ∷ names) row = with_value (lookup name row) (named names row)

abbrev pub selected : Bytes → List (Bytes × Value) → Option (List Value)
selected text row = named (split_texts b',' text) row

abbrev pub scanned : Option (List Value) → Option Event
scanned none = none
scanned (some values) = scan_event values

pub native_tags_same : (tags : Tags) → native_tags tags ≡ tags
unfolding native_tags
native_tags_same [] = refl
native_tags_same (t ∷ tags) = ap (λ (l : Tags). t ∷ l) (native_tags_same tags)

nostr_tags_same : (tags : Tags) → nostr_tags tags ≡ tags
unfolding nostr_tags
nostr_tags_same [] = refl
nostr_tags_same (t ∷ tags) = ap (λ (l : Tags). t ∷ l) (nostr_tags_same tags)

-- The named columns of a row.
abbrev pub HasColumns : Row → List (Bytes × Value) → Type 0
HasColumns row table =
    (lookup (bytes "id") table ≡ some (string row.id))
    × (lookup (bytes "pubkey") table ≡ some (string row.pubkey))
    × (lookup (bytes "created_at") table ≡ some (uint32 row.created_at))
    × (lookup (bytes "kind") table ≡ some (uint32 row.kind))
    × (lookup (bytes "content") table ≡ some (string row.content))
    × (lookup (bytes "sig") table ≡ some (string row.sig))
    × (lookup (bytes "tags_raw") table ≡ some (string row.tags_json))
    × (lookup (bytes "tags") table ≡ some (array row.tags))
    × (lookup (bytes "reply_to") table ≡ some (string row.reply_to))

-- The values that rowFromEvent appends stand in the columns of their names. And if the kind and the
-- timestamp of an event fit a UInt32, scanEvent makes the same event of what a SELECT of the read
-- columns answers from the row.
pub scan_event-row_values :
    (marshal : Tags → Bytes) (evt : Event)
    → evt.created_at < 2 ^ 32
    → evt.kind < 2 ^ 32
    → let table = inserted tier_columns (row_values marshal evt) in
      HasColumns (row_from_event marshal evt) table
      × (scanned (selected read_columns table) ≡ some evt)
unfolding scan_event row_values row_from_event split_texts split trim_space trim_left trim_right
    is_space lookup bytes_eq
scan_event-row_values marshal evt created kind =
    let same_time : evt.created_at % 2 ^ 32 ≡ evt.created_at = omega arith in
    let same_kind : evt.kind % 2 ^ 32 ≡ evt.kind = omega arith in
    let same_tags = ap nostr_tags (native_tags_same evt.tags) ∙ nostr_tags_same evt.tags in
    (
      (refl, refl, refl, refl, refl, refl, refl, refl, refl),
      rw (same_time, same_kind, same_tags) refl,
    )
