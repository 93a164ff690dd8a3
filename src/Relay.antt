-- ===== src/Relay.antt =====
-- internal/relay/relay.go: the hooks that New hands to khatru, in their order, and the default window
-- of a filter. khatru's way of asking the hooks of a list is a parameter (`Dispatch`), and the lists of
-- a new khatru relay are empty.
pub mod Gates
pub mod Window
pub mod Saving
pub mod Tests
use archive_relay.Prelude.{
  ℕ, ◌+◌, ◌-◌, ◌*◌, ◌≡◌, Bool, true, false, not, ◌&&◌, ◌||◌, Option, none, some, List, [], ◌∷◌,
  ◌++◌, Bytes, is_nil, nat_eq, if◌then◌else◌,
}
use archive_relay.Nostr.{Event, Filter}
use archive_relay.Classifier.{Override}
use archive_relay.Control.{Db}
use archive_relay.Policy.{Refused, reject_out_of_scope, RejectFilterBreadth, reject}
use archive_relay.Policy.Access.{Access, Rejection, gate}
use archive_relay.Policy.Limiter.{Limiter, reject_rate}
use archive_relay.Scheduler.{should_defer, defer_event}
use archive_relay.Ingest.{Saved, saved, batch_full, save_failed}
use archive_relay.Reads.{no_time}
use archive_relay.Store.{Backend, Replaced, save_event, replace_event}

-- `access` and `per_minute` are `none` for a nil Access and a nil Limiter, `buffer` for a nil Sched.
pub record Deps : Type 0 where
  pub buffer : Option ℕ
  pub per_minute : Option ℕ
  pub breadth : RejectFilterBreadth
  pub access : Option Access
  pub default_since_hours : ℕ

pub data EventHook : Type 0 where
  access_event scope_event limiter_event : EventHook

pub data FilterHook : Type 0 where
  access_filter limiter_filter breadth_filter : FilterHook

abbrev pub enabled : Option Access → Bool
enabled none = false
enabled (some a) = a.enabled

abbrev pub is_set : Option ℕ → Bool
is_set none = false
is_set (some n) = true

unfoldable pub prepend {ℓ} : {A : Type ℓ} → List A → A → List A
prepend hooks hook = hook ∷ hooks

unfoldable pub reject_event_hooks : Deps → List EventHook
reject_event_hooks d =
    let first = if enabled d.access then prepend [] access_event else [] in
    (first ++ scope_event ∷ []) ++ (if is_set d.per_minute then limiter_event ∷ [] else [])

-- RejectFilter; RejectCountFilter gets the same hooks.
unfoldable pub reject_filter_hooks : Deps → List FilterHook
reject_filter_hooks d =
    let first = if enabled d.access then prepend [] access_filter else [] in
    (first ++ (if is_set d.per_minute then limiter_filter ∷ [] else [])) ++ breadth_filter ∷ []

-- What khatru knows of the connection that a message came on.
pub record Client : Type 0 where
  pub has_connection : Bool
  pub authed : Bytes
  pub ip : Bytes

pub data Reason : Type 0 where
  not_admitted : Rejection → Reason
  not_accepted : Refused → Reason
  rate_limited : Reason

abbrev pub access_reason : Option Rejection → Option Reason
access_reason none = none
access_reason (some r) = some (not_admitted r)

abbrev pub policy_reason : Option Refused → Option Reason
policy_reason none = none
policy_reason (some r) = some (not_accepted r)

abbrev pub rate_reason : Bool → Option Reason
rate_reason false = none
rate_reason true = some rate_limited

abbrev pub ask_access : Client → Option Access → Option Reason
ask_access c none = none
ask_access c (some a) = access_reason (gate a c.has_connection c.authed)

abbrev pub ask_limiter : ℕ → Client → Option ℕ → Limiter → Option Reason × Limiter
ask_limiter now c none l = (none, l)
ask_limiter now c (some n) l = let r = reject_rate n now c.ip l in (rate_reason r.0, r.1)

module _ (d : Deps) (now : ℕ) (c : Client) where
  unfoldable pub ask_event : Event → EventHook → Limiter → Option Reason × Limiter
  ask_event evt access_event l = (ask_access c d.access, l)
  ask_event evt scope_event l = (policy_reason (reject_out_of_scope evt), l)
  ask_event evt limiter_event l = ask_limiter now c d.per_minute l

  unfoldable pub ask_filter : Filter → FilterHook → Limiter → Option Reason × Limiter
  ask_filter f access_filter l = (ask_access c d.access, l)
  ask_filter f limiter_filter l = ask_limiter now c d.per_minute l
  ask_filter f breadth_filter l = (policy_reason (reject d.breadth f), l)

-- khatru asks the hooks of a list one after the other until one of them rejects.
pub record Dispatch (G : Type 0) : Type 0 where
  pub refusal : (G → Limiter → Option Reason × Limiter) → List G → Limiter → Option Reason × Limiter
  pub refusal-nil :
      (ask : G → Limiter → Option Reason × Limiter) (l : Limiter) → refusal ask [] l ≡ (none, l)
  pub refusal-refused :
      (ask : G → Limiter → Option Reason × Limiter) (h : G) (hooks : List G) (l : Limiter)
      (why : Reason)
      → (ask h l).0 ≡ some why
      → refusal ask (h ∷ hooks) l ≡ ask h l
  pub refusal-passed :
      (ask : G → Limiter → Option Reason × Limiter) (h : G) (hooks : List G) (l : Limiter)
      → (ask h l).0 ≡ none
      → refusal ask (h ∷ hooks) l ≡ refusal ask hooks (ask h l).1

-- The shape of a global feed. A window that starts before 1970 starts there.
abbrev pub is_global : Filter → Bool
is_global f =
    is_nil f.ids && (is_nil f.authors && (is_nil f.tags && (no_time f.until && no_time f.since)))

unfoldable pub overwrite_filter : ℕ → ℕ → Filter → Filter
overwrite_filter hours now f =
    if nat_eq hours 0 || not (is_global f)
    then f
    else record f { since = some (now - hours * 3600) }

-- What a write changes: the store and the control database.
pub record World (S : Type 0) : Type 0 where
  pub store : S
  pub db : Db

abbrev pub deferred : Option ℕ → ℕ → Event → Bool
deferred none now evt = false
deferred (some buffer) now evt = should_defer now buffer evt

unfoldable pub prevent_broadcast : Deps → ℕ → Event → Bool
prevent_broadcast d now evt = deferred d.buffer now evt

abbrev pub is_saved : Saved → Bool
is_saved saved = true
is_saved batch_full = false
is_saved save_failed = false

module _ {S : Type 0} where
  abbrev pub after_defer : S → Bool × Db → Bool × World S
  after_defer s (ok, db) = (ok, record { store = s; db = db })

  abbrev pub after_store : Db → Saved × S → Bool × World S
  after_store db (r, s) = (is_saved r, record { store = s; db = db })

  abbrev pub after_replace : Db → Replaced × S → Replaced × World S
  after_replace db (r, s) = (r, record { store = s; db = db })

module _ {S : Type 0} (backend : Backend S) (override : Override) where
  -- The StoreEvent hook: whether it returns nil. `ok` is whether SQLite takes the row.
  unfoldable pub save_hook :
      (Event → Option Bytes) → Deps → ℕ → Bool → Event → World S → Bool × World S
  save_hook encode d now ok evt w =
      if deferred d.buffer now evt
      then after_defer w.store (defer_event encode ok evt w.db)
      else after_store w.db (save_event backend override evt w.store)

  -- The ReplaceEvent hook.
  unfoldable pub replace_hook : Event → World S → Replaced × World S
  replace_hook evt w = after_replace w.db (replace_event backend override evt w.store)
