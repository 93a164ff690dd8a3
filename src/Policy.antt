-- ===== src/Policy.antt =====
-- internal/policy: what gates ingress and reads. The hooks answer khatru with a refusal or `none`;
-- a refusal's message is its constructor.
pub mod Access
pub mod Limiter
pub mod Breadth
mod Tests
use archive_relay.Prelude.{
  ℕ, ◌+◌, Bool, Option, none, some, List, [], ◌∷◌, Bytes, length, ltb, if◌then◌else◌, ◌&&◌,
}
use archive_relay.Nostr.{Event, Filter}
use archive_relay.Classifier.{tier_for_kind, is_drop}

-- reject.go
pub data Refused : Type 0 where
  kind_out_of_scope too_many_ids too_many_authors too_many_kinds too_many_tag_values : Refused

unfoldable pub reject_out_of_scope : Event → Option Refused
reject_out_of_scope evt = if is_drop (tier_for_kind evt.kind) then some kind_out_of_scope else none

pub record RejectFilterBreadth : Type 0 where
  pub max_ids : ℕ
  pub max_authors : ℕ
  pub max_kinds : ℕ
  pub max_tags : ℕ

abbrev pub tag_values : List (Bytes × List Bytes) → ℕ
tag_values [] = 0
tag_values (entry ∷ tags) = length entry.1 + tag_values tags

-- 0 is no limit
abbrev pub exceeds : ℕ → ℕ → Bool
exceeds n cap = ltb 0 cap && ltb cap n

unfoldable pub reject : RejectFilterBreadth → Filter → Option Refused
reject r f =
    if exceeds (length f.ids) r.max_ids
    then some too_many_ids
    else if exceeds (length f.authors) r.max_authors
    then some too_many_authors
    else if exceeds (length f.kinds) r.max_kinds
    then some too_many_kinds
    else if exceeds (tag_values f.tags) r.max_tags
    then some too_many_tag_values
    else none
