-- ===== src/Rows.antt =====
-- internal/store/batcher.go: the row of a tier table that is made of an event.
mod Tests
pub mod Scanning
use archive_relay.Prelude.{
  ℕ, ◌++◌, Option, none, some, ◌%◌, ◌^◌, Bool, true, false, ◌||◌, List, [], ◌∷◌, map, Bytes, bytes,
  eq_bytes, ◌==◌, if◌then◌else◌,
}
use archive_relay.Nostr.{Event, Tags}

-- The marker of an e-tag with at least two elements, given those after the id.
abbrev pub marker : List Bytes → Bytes
marker (relay ∷ mark ∷ rest) = mark
marker _ = []

-- What replyTarget reads of one tag.
pub data TagRole : Type 0 where
  reply_to : Bytes → TagRole
  positional : Bytes → TagRole
  other : TagRole

unfoldable pub role : List Bytes → TagRole
role (name ∷ id ∷ rest) =
    if name == bytes "e"
    then (if marker rest == bytes "reply"
        then reply_to id
        else if marker rest == []
        then positional id
        else other)
    else other
role _ = other

-- The loop of replyTarget, with lastPositional.
unfoldable pub reply_target_from : Bytes → List TagRole → Bytes
reply_target_from last [] = last
reply_target_from last (reply_to id ∷ tags) = id
reply_target_from last (positional id ∷ tags) = reply_target_from id tags
reply_target_from last (other ∷ tags) = reply_target_from last tags

unfoldable pub reply_target : Tags → Bytes
reply_target tags = reply_target_from [] (map role tags)

-- nativeTags and nostrTags, which append the elements of each tag to an empty one.
unfoldable pub native_tags : Tags → List (List Bytes)
native_tags [] = []
native_tags (t ∷ tags) = ([] ++ t) ∷ native_tags tags

unfoldable pub nostr_tags : List (List Bytes) → Tags
nostr_tags [] = []
nostr_tags (t ∷ rows) = ([] ++ t) ∷ nostr_tags rows

-- What the driver appends and scans: a String, a UInt32, or an Array(Array(String)).
pub data Value : Type 0 where
  string : Bytes → Value
  uint32 : ℕ → Value
  array : List (List Bytes) → Value

-- rowFromEvent; `marshal` is json.Marshal of the tags.
unfoldable pub row_values : (Tags → Bytes) → Event → List Value
row_values marshal evt =
    string evt.id
    ∷ string evt.pubkey
    ∷ uint32 (evt.created_at % 2 ^ 32)
    ∷ uint32 (evt.kind % 2 ^ 32)
    ∷ string evt.content
    ∷ string evt.sig
    ∷ string (marshal evt.tags)
    ∷ array (native_tags evt.tags)
    ∷ string (reply_target evt.tags)
    ∷ []

-- internal/store/schema.go and store.go: the columns of an INSERT and of a SELECT.
abbrev pub tier_columns : Bytes
tier_columns = bytes "id, pubkey, created_at, kind, content, sig, tags_raw, tags, reply_to"

abbrev pub read_columns : Bytes
read_columns = bytes "id, pubkey, created_at, kind, content, sig, tags"

-- scanEvent, on the values of a row in the order of the SELECT; `none` is an error of Scan.
unfoldable pub scan_event : List Value → Option Event
scan_event
      (string id
        ∷ string pubkey
        ∷ uint32 created_at
        ∷ uint32 kind
        ∷ string content
        ∷ string sig
        ∷ array tags
        ∷ []) =
    some (record {
      id = id;
      pubkey = pubkey;
      created_at = created_at;
      kind = kind;
      tags = nostr_tags tags;
      content = content;
      sig = sig;
    })
scan_event _ = none

-- A row of a tier's table by its columns.
pub record Row : Type 0 where
  pub id : Bytes
  pub pubkey : Bytes
  pub created_at : ℕ
  pub kind : ℕ
  pub content : Bytes
  pub sig : Bytes
  pub tags_json : Bytes
  pub tags : List (List Bytes)
  pub reply_to : Bytes

-- The row of an event.
unfoldable pub row_from_event : (Tags → Bytes) → Event → Row
row_from_event marshal evt = record {
  id = evt.id;
  pubkey = evt.pubkey;
  created_at = evt.created_at % 2 ^ 32;
  kind = evt.kind % 2 ^ 32;
  content = evt.content;
  sig = evt.sig;
  tags_json = marshal evt.tags;
  tags = native_tags evt.tags;
  reply_to = reply_target evt.tags;
}
