-- ===== src/Relay/Tests.antt =====
-- internal/relay/relay.go with a friend, a stranger and a note dated ahead.
use archive_relay.Prelude.{
  arith, ◌≡◌, refl, true, ◌&&◌, Option, none, some, List, [], ◌∷◌, bytes, leb, lookup, eq_bytes,
  if◌then◌else◌,
}
use archive_relay.Nostr.{Filter}
use archive_relay.Samples.{id_a, note_a}
use archive_relay.Control.{empty_db, due_rows}
use archive_relay.Policy.{reject_out_of_scope, reject}
use archive_relay.Policy.Limiter.{Limiter, new_limiter}
use archive_relay.Store.{save_event}
use archive_relay.Store.Memory.{Memory, memory}
use archive_relay.Relay.{
  Deps, EventHook, FilterHook, reject_event_hooks, reject_filter_hooks, Client, Reason,
  policy_reason, ask_access, ask_limiter, ask_event, ask_filter, Dispatch, World, prevent_broadcast,
  save_hook,
}
use archive_relay.Relay.Gates.{or_else, passes, refusal-hooks}
use archive_relay.Relay.Saving.{is_ahead, save_hook_lem}

abbrev pub follow : {S : Type 0} → Option Reason × S → (S → Option Reason × S) → Option Reason × S
follow (none, l) others = others l
follow (some why, l) others = (some why, l)

pub follow_refused :
    (r : Option Reason × Limiter) (others : Limiter → Option Reason × Limiter) (why : Reason)
    → r.0 ≡ some why
    → follow r others ≡ r
follow_refused (none, l) others why e = cc
follow_refused (some w, l) others why e = refl

pub follow_passed :
    (r : Option Reason × Limiter) (others : Limiter → Option Reason × Limiter)
    → r.0 ≡ none
    → follow r others ≡ others r.1
follow_passed (none, l) others e = refl
follow_passed (some w, l) others e = cc

abbrev pub in_turn :
    {G : Type 0}
    → (G → Limiter → Option Reason × Limiter)
    → List G
    → Limiter
    → Option Reason × Limiter
in_turn ask [] l = (none, l)
in_turn ask (h ∷ hooks) l = follow (ask h l) (in_turn ask hooks)

abbrev pub dispatch : (G : Type 0) → Dispatch G
dispatch G = record {
  refusal = in_turn;
  refusal-nil = λ ask l. refl;
  refusal-refused = λ ask h hooks l why e. follow_refused (ask h l) (in_turn ask hooks) why e;
  refusal-passed = λ ask h hooks l e. follow_passed (ask h l) (in_turn ask hooks) e;
}

abbrev friends_only : Deps
friends_only = record {
  buffer = some 60;
  per_minute = some 2;
  breadth = record { max_ids = 1; max_authors = 0; max_kinds = 0; max_tags = 0 };
  access = some (record { enabled = true; admin = []; static = id_a ∷ []; allowed = id_a ∷ [] });
  default_since_hours = 48;
}

abbrev friend : Client
friend = record { has_connection = true; authed = id_a; ip = bytes "10.0.0.1" }

abbrev pub feed : Filter
feed = record {
  ids = [];
  authors = [];
  kinds = 1 ∷ [];
  tags = [];
  since = none;
  until = none;
  limit = 2;
}

refusal-hooks_example :
    let access = ask_access friend friends_only.access in
    let scope = policy_reason (reject_out_of_scope note_a) in
    let breadth = policy_reason (reject friends_only.breadth feed) in
    let rate = ask_limiter 0 friend friends_only.per_minute new_limiter in
    (in_turn (ask_event friends_only 0 friend note_a) (reject_event_hooks friends_only) new_limiter
      ≡ (
        or_else access (or_else scope rate.0),
        if passes access && passes scope then rate.1 else new_limiter,
      ))
    × (in_turn
          (ask_filter friends_only 0 friend feed)
          (reject_filter_hooks friends_only)
          new_limiter
        ≡ (or_else access (or_else rate.0 breadth), if passes access then rate.1 else new_limiter))
refusal-hooks_example =
    refusal-hooks friends_only 0 friend (dispatch EventHook) (dispatch FilterHook) note_a feed
      new_limiter

abbrev nothing_yet : World Memory
nothing_yet = record { store = record { queued = []; rows = []; hidden = [] }; db = empty_db }

save_hook_lem_example :
    let ahead = is_ahead friends_only.buffer 900 note_a in
    let w' =
      (save_hook memory [] (λ evt. some evt.id) friends_only 900 true note_a nothing_yet).1 in
    (w'.store
      ≡ (if ahead then nothing_yet.store else (save_event memory [] note_a nothing_yet.store).1))
    × (lookup note_a.id (due_rows 999 w'.db.scheduled_events) ≡ (
        if ahead
        then (if leb note_a.created_at 999
            then some (record { event_json = note_a.id; publish_at = note_a.created_at })
            else none)
        else lookup note_a.id (due_rows 999 nothing_yet.db.scheduled_events)))
    × (prevent_broadcast friends_only 901 note_a
        ≡ (ahead && is_ahead friends_only.buffer 901 note_a))
save_hook_lem_example =
    save_hook_lem memory [] (λ evt. some evt.id) friends_only 900 901 999 id_a note_a nothing_yet
      (omega arith) refl
