-- ===== src/Startup/Gated.antt =====
-- cmd/archive-relay/main.go with internal/relay and internal/policy: what a configuration with `auth`
-- enabled is worth to a client.
use archive_relay.Prelude.{
  ℕ, ◌≡◌, refl, sym, ap, ◌∙◌, Bool, true, false, not, ◌&&◌, ◌||◌, Option, none, some, List, [],
  Bytes, eq_bytes, contains, ◌==◌, Bool-cases, inl, inr, arith,
}
use mathlib.Core.Option.{some-injective}
use archive_relay.Nostr.{Event, Filter}
use archive_relay.Control.{Db}
use archive_relay.Config.{Config}
use archive_relay.Policy.Access.{Access, new_access, gate}
use archive_relay.Policy.Access.InSync.{
  granted, is_none, gate-run, new_access-fields, contains-to_set,
}
use archive_relay.Policy.Limiter.{Limiter}
use archive_relay.Relay.{
  Deps, EventHook, FilterHook, Client, Reason, Dispatch, reject_event_hooks, reject_filter_hooks,
  ask_event, ask_filter, ask_access, access_reason,
}
use archive_relay.Relay.Gates.{passes, or_else, refusal-hooks}
use archive_relay.Startup.{Running, granted_access, access_of, deps_of, running, main}

-- A key that the configuration or the table allows.
abbrev pub is_permitted : Config → Db → Bytes → Bool
is_permitted cfg db pk = not (pk == []) && (contains pk cfg.auth.allow_pubkeys || granted pk db)

new_access-gate :
    (allow admin : List Bytes) (loads : Bool) (db : Db) (a : Access) (pk : Bytes)
    → new_access true allow admin loads db ≡ some a
    → is_none (gate a true pk) ≡ (not (pk == []) && (contains pk allow || granted pk db))
unfolding archive_relay.Policy.Access.run
new_access-gate allow admin loads db a pk e =
    let g = (gate-run true loads allow admin db a [] [] pk e).0 in
    let (on, static) = new_access-fields true loads allow admin db a e in
    let same = ap (contains pk) static in
    elim (Bool-cases (pk == [])) [
      | inl h ↦ ground (arith, g, on, h)
      | inr h ↦ ground (arith, g, on, h, same, contains-to_set pk allow h)
    ]

-- What main's exits leave: a service URL and the access list.
abbrev IsGuarded : Config → Bool → Db → Option Access → Type 0
IsGuarded cfg loads db access =
    ((cfg.relay.service_url == []) ≡ false)
    × ((a : Access) × (access ≡ some a)
        × (new_access true cfg.auth.allow_pubkeys cfg.auth.admin_pubkeys loads db ≡ some a))

granted_access-some :
    (cfg : Config) (loads : Bool) (db : Db) (o : Option Access) (access : Option Access)
    → (cfg.relay.service_url == []) ≡ false
    → new_access true cfg.auth.allow_pubkeys cfg.auth.admin_pubkeys loads db ≡ o
    → granted_access o ≡ some access
    → IsGuarded cfg loads db access
granted_access-some cfg loads db none access u e h = absurd (cc h)
granted_access-some cfg loads db (some a) access u e h =
    (u, (a, sym (some-injective (some a) access h), e))

access_of-IsGuarded :
    (cfg : Config) (loads : Bool) (db : Db) (access : Option Access)
    → cfg.auth.enabled ≡ true
    → access_of cfg.auth cfg.relay.service_url loads db ≡ some access
    → IsGuarded cfg loads db access
unfolding access_of
access_of-IsGuarded cfg loads db access on h =
    let o = new_access true cfg.auth.allow_pubkeys cfg.auth.admin_pubkeys loads db in
    elim (Bool-cases (cfg.relay.service_url == [])) [
      | inl e ↦ absurd (ground (arith, on, e, h))
      | inr e ↦ granted_access-some cfg loads db o access e refl (ground (arith, on, e, h))
    ]

running-some :
    (cfg : Config) (sources : Bytes) (o : Option (Option Access)) (r : Running)
    → running cfg sources o ≡ some r
    → (access : Option Access) × (o ≡ some access) × (r.deps ≡ deps_of cfg access)
running-some cfg sources none r h = absurd (cc h)
running-some cfg sources (some access) r h =
    (access, refl, ap (λ (x : Running). x.deps) (sym (some-injective _ r h)))

main-some :
    (sources : Bytes) (opens inits loads : Bool) (db : Db) (cfg : Config) (r : Running)
    → main sources opens inits loads db (some cfg) ≡ some r
    → (access : Option Access) × (access_of cfg.auth cfg.relay.service_url loads db ≡ some access)
      × (r.deps ≡ deps_of cfg access)
unfolding main
main-some sources false inits loads db cfg r h = absurd (cc h)
main-some sources true false loads db cfg r h = absurd (cc h)
main-some sources true true loads db cfg r h = running-some cfg sources _ r h

is_none-refused :
    (c : Client) (a : Access)
    → c.has_connection ≡ true
    → is_none (gate a true c.authed) ≡ false
    → passes (access_reason (gate a c.has_connection c.authed)) ≡ false
is_none-refused c a h g = rw h (by_gate (gate a true c.authed) g)
  where
    by_gate : (o : Option _) → is_none o ≡ false → passes (access_reason o) ≡ false
    by_gate none e = e
    by_gate (some why) e = refl

or_else-refused : (o other : Option Reason) → passes o ≡ false → passes (or_else o other) ≡ false
or_else-refused none other h = absurd (cc h)
or_else-refused (some why) other h = refl

Refusal : (Option Reason × Limiter) → Limiter → Type 0
Refusal r l = (passes r.0 ≡ false) × (r.1 ≡ l)

ask_access-refusal :
    (on_events : Dispatch EventHook) (on_filters : Dispatch FilterHook) (d : Deps) (now : ℕ)
    (c : Client) (evt : Event) (f : Filter) (l : Limiter)
    → passes (ask_access c d.access) ≡ false
    → Refusal (on_events.refusal (ask_event d now c evt) (reject_event_hooks d) l) l
      × Refusal (on_filters.refusal (ask_filter d now c f) (reject_filter_hooks d) l) l
unfolding Refusal
ask_access-refusal on_events on_filters d now c evt f l h =
    let (e, q) = refusal-hooks d now c on_events on_filters evt f l in
    let o = ask_access c d.access in
    rw (e, q) ((or_else-refused o _ h, (rw h refl)), (or_else-refused o _ h, (rw h refl)))

-- If main starts with `auth` enabled, the service URL is set; and a client on a connection that has
-- not authenticated with a key of the configured list or of the table gets a refusal for each event
-- that it publishes and for each query, and the limiter does not count them.
pub main-refusal :
    (on_events : Dispatch EventHook) (on_filters : Dispatch FilterHook) (sources : Bytes)
    (opens inits loads : Bool) (db : Db) (cfg : Config) (r : Running) (now : ℕ) (c : Client)
    (evt : Event) (f : Filter) (l : Limiter)
    → main sources opens inits loads db (some cfg) ≡ some r
    → cfg.auth.enabled ≡ true
    → c.has_connection ≡ true
    → is_permitted cfg db c.authed ≡ false
    → let event = on_events.refusal (ask_event r.deps now c evt) (reject_event_hooks r.deps) l in
      let query = on_filters.refusal (ask_filter r.deps now c f) (reject_filter_hooks r.deps) l in
      ((cfg.relay.service_url == []) ≡ false)
      × (passes event.0 ≡ false)
      × (event.1 ≡ l)
      × (passes query.0 ≡ false)
      × (query.1 ≡ l)
unfolding Refusal deps_of
main-refusal on_events on_filters sources opens inits loads db cfg r now c evt f l h on conn bad =
    let (access, e, d) = main-some sources opens inits loads db cfg r h in
    let (url, (a, p, n)) = access_of-IsGuarded cfg loads db access on e in
    let g = new_access-gate cfg.auth.allow_pubkeys cfg.auth.admin_pubkeys loads db a c.authed n in
    let off = is_none-refused c a conn (ground (arith, g, bad)) in
    let asks : passes (ask_access c r.deps.access) ≡ false =
      ap (λ (x : Deps). passes (ask_access c x.access)) d
      ∙ ap (λ (x : Option Access). passes (ask_access c x)) p
      ∙ off in
    let (event, query) = ask_access-refusal on_events on_filters r.deps now c evt f l asks in
    (url, event.0, event.1, query.0, query.1)
