-- ===== src/Store/Tests.antt =====
-- internal/store/store.go over a store in memory.
use archive_relay.Prelude.{
  ℕ, ◌≡◌, ◌⊎◌, inl, inr, refl, Bool, true, ◌&&◌, Option, some, List, [], ◌∷◌, ◌++◌, Memᴰ, Bytes,
  bytes, bytes_eq, bytes_lt, eq_bytes, eq_nat, contains, insert, ◌==◌, is_nil, if◌then◌else◌, arith,
}
use archive_relay.Nostr.{Event}
use archive_relay.Samples.{id_a, id_b, event_of, profile_a}
use archive_relay.Classifier.{
  eq_tier, tier_for_event, is_replaceable_kind, classify, classify_with_override,
}
use archive_relay.Reads.{tiers_for_filter, tiers_of_kinds, add_tier}
use archive_relay.Store.{
  Version, is_older, judge, save_event, flush_tiers, flush_all, retire_ids, probe_tiers,
  probe_replaceable, replace_event,
}
use archive_relay.Store.Verdict.{Superseded, Outdone}
use archive_relay.Store.Replacing.{probe_of, replace_event-Hidden}
use archive_relay.Store.Memory.{Memory, versions, memory}

abbrev new_profile : Event
new_profile = record (event_of id_b 0) { created_at = 2000 }

abbrev one_profile : Memory
one_profile = record { queued = []; rows = profile_a ∷ []; hidden = [] }

old_hidden : Memᴰ id_a (replace_event memory [] new_profile one_profile).1.hidden
unfolding replace_event flush_all flush_tiers probe_replaceable probe_tiers save_event judge
    is_older retire_ids versions tiers_for_filter tiers_of_kinds add_tier tier_for_event
    classify_with_override classify is_replaceable_kind contains bytes_eq bytes_lt
    archive_relay.Prelude.lookup
old_hidden = Memᴰ.head refl

replace_event-Hidden_example :
    let s' = (replace_event memory [] new_profile one_profile).1 in
    Memᴰ id_a one_profile.hidden
    ⊎ ((prev : List Version) × ((probe_of memory [] new_profile id_a one_profile).0 ≡ some prev)
        × Superseded new_profile id_a prev
        × (Memᴰ new_profile s'.rows ⊎ Outdone new_profile prev))
replace_event-Hidden_example =
    replace_event-Hidden memory [] new_profile id_a one_profile old_hidden
