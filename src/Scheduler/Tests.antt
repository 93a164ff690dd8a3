-- ===== src/Scheduler/Tests.antt =====
-- internal/scheduler/scheduler.go with one due event and one that is not.
use archive_relay.Prelude.{
  ◌≡◌, refl, true, none, some, List, [], ◌∷◌, ◌++◌, Bytes, bytes, eq_bytes, lookup, if◌then◌else◌,
  sort_by, insert_sorted,
}
use archive_relay.Samples.{id_a, id_b, note_a}
use archive_relay.Control.{Parked, empty_db, load_due_scheduled, due_rows}
use archive_relay.Scheduler.{Publishing, publish_due}
use archive_relay.Scheduler.Due.{removed, publishable, publish_due_lem}

abbrev row_a : Parked
row_a = record { event_json = bytes "a"; publish_at = 50 }

abbrev row_b : Parked
row_b = record { event_json = bytes "b"; publish_at = 200 }

abbrev two_parked : Publishing
two_parked = record {
  db = record empty_db { scheduled_events = (id_b, row_b) ∷ (id_a, row_a) ∷ [] };
  published = [];
}

abbrev due_a : List (Bytes × Parked)
due_a = (id_a, row_a) ∷ []

due_at_100 : load_due_scheduled true 100 100 two_parked.db ≡ some due_a
unfolding load_due_scheduled due_rows sort_by insert_sorted
due_at_100 = refl

publish_due_lem_example :
    let s' = publish_due (λ json. some note_a) (λ evt. true) (λ id. true) true 100 two_parked in
    (lookup id_a s'.db.scheduled_events ≡ (
      if removed (λ json. some note_a) (λ evt. true) (λ id. true) id_a due_a
      then none
      else lookup id_a two_parked.db.scheduled_events))
    × (s'.published ≡ [] ++ publishable (λ json. some note_a) (λ evt. true) (λ id. true) due_a)
publish_due_lem_example =
    publish_due_lem (λ json. some note_a) (λ evt. true) (λ id. true) true 100 due_a id_a two_parked
      due_at_100
