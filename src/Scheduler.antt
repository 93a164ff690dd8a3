-- ===== src/Scheduler.antt =====
-- internal/scheduler/scheduler.go: future-dated events are parked in the control database and
-- published when due. go-nostr's JSON of an event is a parameter (`encode`, `decode`), and so is
-- the publish pipeline, whose calls are collected in `published`.
mod Tests
pub mod Due
use archive_relay.Prelude.{
  ℕ, ◌+◌, ◌/◌, ◌^◌, ◌&&◌, Bool, true, false, Option, none, some, List, [], ◌∷◌, ◌++◌, Bytes, ltb,
  if◌then◌else◌,
}
use archive_relay.Nostr.{Event}
use archive_relay.Control.{Db, Parked, save_scheduled, load_due_scheduled, delete_scheduled}

unfoldable pub should_defer : ℕ → ℕ → Event → Bool
should_defer now buffer evt = ltb (now + buffer) evt.created_at

unfoldable pub park : Bool → Event → Option Bytes → Db → Bool × Db
park ok evt none db = (false, db)
park ok evt (some json) db = save_scheduled ok evt.id json evt.created_at db

unfoldable pub defer_event : (Event → Option Bytes) → Bool → Event → Db → Bool × Db
defer_event encode ok evt db = park ok evt (encode evt) db

pub record Publishing : Type 0 where
  pub db : Db
  pub published : List Event  -- the calls of publish that succeeded

module _ (decode : Bytes → Option Event) (publish : Event → Bool) (deletes : Bytes → Bool) where
  unfoldable pub remove : Bytes → Publishing → Publishing
  remove id s = record s { db = (delete_scheduled (deletes id) id s.db).1 }

  unfoldable pub publish_one : Bytes → Option Event → Publishing → Publishing
  publish_one id none s = remove id s
  publish_one id (some evt) s =
      if publish evt then remove id (record s { published = s.published ++ evt ∷ [] }) else s

  unfoldable pub publish_all : List (Bytes × Parked) → Publishing → Publishing
  publish_all [] s = s
  publish_all ((id, p) ∷ due) s = publish_all due (publish_one id (decode p.event_json) s)

  unfoldable pub publish_loaded : Option (List (Bytes × Parked)) → Publishing → Publishing
  publish_loaded none s = s
  publish_loaded (some due) s = publish_all due s

  unfoldable pub publish_due : Bool → ℕ → Publishing → Publishing
  publish_due loads now s = publish_loaded (load_due_scheduled loads now 100 s.db) s

-- A tick of Run: its time, whether its query and its deletions succeed, and which events the pipeline
-- takes then.
pub record Tick : Type 0 where
  pub now : ℕ
  pub loads : Bool
  pub publish : Event → Bool
  pub deletes : Bytes → Bool

-- The ticker's interval for a buffer, in nanoseconds.
abbrev pub tick_interval : ℕ → ℕ
tick_interval buffer = if ltb (buffer / 4) (10 ^ 9) then 10 ^ 9 else buffer / 4

unfoldable pub run : (Bytes → Option Event) → List Tick → Publishing → Publishing
run decode [] s = s
run decode (t ∷ ticks) s = run decode ticks (publish_due decode t.publish t.deletes t.loads t.now s)
