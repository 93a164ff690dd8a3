-- ===== src/Nostr.antt =====
-- The two types of go-nostr that the program passes around: the seven fields of an event that
-- internal/store/store.go reads back, and the fields of a filter that it tests. Kinds, timestamps
-- and limits are non-negative; an absent `since` or `until` is `none`.
use archive_relay.Prelude.{ℕ, Bytes, List, Option}

abbrev pub Tags : Type 0
Tags = List (List Bytes)

pub record Event : Type 0 where
  pub id : Bytes
  pub pubkey : Bytes
  pub created_at : ℕ
  pub kind : ℕ
  pub tags : Tags
  pub content : Bytes
  pub sig : Bytes

-- `tags` lists the entries of Go's map from a tag name to the wanted values.
pub record Filter : Type 0 where
  pub ids : List Bytes
  pub authors : List Bytes
  pub kinds : List ℕ
  pub tags : List (Bytes × List Bytes)
  pub since : Option ℕ
  pub until : Option ℕ
  pub limit : ℕ
