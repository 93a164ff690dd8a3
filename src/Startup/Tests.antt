-- ===== src/Startup/Tests.antt =====
-- cmd/archive-relay/main.go with a configuration for one friend.
use archive_relay.Prelude.{
  ◌≡◌, refl, true, false, some, [], ◌∷◌, Bytes, bytes, bytes_eq, eq_bytes, contains, insert, ◌==◌,
  lookup,
}
use archive_relay.Samples.{id_a, id_b, note_a}
use archive_relay.Control.{empty_db, load_allowed_set}
use archive_relay.Config.{Config, defaults}
use archive_relay.Policy.Access.{Access, new_access, to_set, add_all, rebuild, primed}
use archive_relay.Policy.Limiter.{new_limiter}
use archive_relay.Relay.{
  Client, EventHook, FilterHook, ask_event, ask_filter, reject_event_hooks, reject_filter_hooks,
}
use archive_relay.Relay.Gates.{passes}
use archive_relay.Relay.Tests.{dispatch, feed}
use archive_relay.Texts.{is_space}
use archive_relay.Startup.{Running, access_of, deps_of, main, split_sources}
use archive_relay.Startup.Gated.{is_permitted, main-refusal}

abbrev for_a_friend : Config
for_a_friend = record defaults {
  relay = record { addr = bytes ":3334"; service_url = bytes "wss://relay.example" };
  auth = record { enabled = true; allow_pubkeys = id_a ∷ []; admin_pubkeys = [] };
}

abbrev stranger : Client
stranger = record { has_connection = true; authed = id_b; ip = bytes "10.0.0.1" }

abbrev flag : Bytes
flag = bytes "wss://nos.lol"

abbrev friends : Access
friends = record { enabled = true; admin = []; static = id_a ∷ []; allowed = id_a ∷ [] }

abbrev friends_relay : Running
friends_relay = record {
  deps = deps_of for_a_friend (some friends);
  service_url = bytes "wss://relay.example";
  sources = flag ∷ [];
  priority = false;
}

main_friends : main flag true true true empty_db (some for_a_friend) ≡ some friends_relay
unfolding main access_of new_access primed load_allowed_set rebuild to_set add_all insert contains
    defaults bytes_eq split_sources archive_relay.Texts.split_texts archive_relay.Texts.split
    archive_relay.Texts.trim_space archive_relay.Texts.trim_left archive_relay.Texts.trim_right
    is_space
main_friends = refl

not_permitted : is_permitted for_a_friend empty_db id_b ≡ false
unfolding defaults contains bytes_eq lookup
not_permitted = refl

main-refusal_example :
    let d = deps_of for_a_friend (some friends) in
    let event =
      (dispatch EventHook).refusal
        (ask_event d 5 stranger note_a)
        (reject_event_hooks d)
        new_limiter in
    let query =
      (dispatch FilterHook).refusal
        (ask_filter d 5 stranger feed)
        (reject_filter_hooks d)
        new_limiter in
    ((bytes "wss://relay.example" == []) ≡ false)
    × (passes event.0 ≡ false)
    × (event.1 ≡ new_limiter)
    × (passes query.0 ≡ false)
    × (query.1 ≡ new_limiter)
main-refusal_example =
    main-refusal (dispatch EventHook) (dispatch FilterHook) flag true true true empty_db
      for_a_friend friends_relay 5 stranger note_a feed new_limiter main_friends refl refl
      not_permitted
