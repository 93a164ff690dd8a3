-- ===== src/Control/Tables.antt =====
-- internal/control/control.go: what the readers of a table return after a statement on it.
use archive_relay.Prelude.{
  ℕ, ◌≡◌, refl, inl, inr, Bool, true, false, ◌||◌, some, List, [], ◌∷◌, ◌++◌, Bytes, eq_bytes, ◌==◌,
  bytes_eq_iff, lookup-put, arith, if◌then◌else◌, Bool-cases, ==_self,
}
use archive_relay.Control.{
  Db, SeenRef, is_recorded, insert_or_ignore, insert_all, mark_seen_batch, state_of, last_fetched,
  last_swept, mark_fetched, mark_swept,
}

is_recorded-append :
    (id : Bytes) (rows : List SeenRef) (r : SeenRef)
    → is_recorded id (rows ++ r ∷ []) ≡ (r.id == id || is_recorded id rows)
unfolding is_recorded
is_recorded-append id [] r = refl
is_recorded-append id (x ∷ rows) r = ground (arith, is_recorded-append id rows r)

is_recorded-insert_or_ignore :
    (id : Bytes) (r : SeenRef) (rows : List SeenRef)
    → is_recorded id (insert_or_ignore r rows) ≡ (r.id == id || is_recorded id rows)
unfolding insert_or_ignore
is_recorded-insert_or_ignore id r rows =
    ground (arith, is_recorded-append id rows r, bytes_eq_iff r.id id)

is_recorded-insert_all :
    (id : Bytes) (rs rows : List SeenRef)
    → is_recorded id (insert_all rs rows) ≡ (is_recorded id rs || is_recorded id rows)
unfolding insert_all is_recorded
is_recorded-insert_all id [] rows = refl
is_recorded-insert_all id (r ∷ rs) rows = ground (
  arith,
  is_recorded-insert_all id rs (insert_or_ignore r rows),
  is_recorded-insert_or_ignore id r rows,
)

-- A batch that is known to be recorded changes nothing.
insert_all-recorded :
    (rs rows : List SeenRef)
    → ((id : Bytes) → is_recorded id rs ≡ true → is_recorded id rows ≡ true)
    → insert_all rs rows ≡ rows
unfolding insert_all is_recorded insert_or_ignore
insert_all-recorded [] rows h = refl
insert_all-recorded (r ∷ rs) rows h =
    rw (h r.id (ground (arith, ==_self r.id)))
      (insert_all-recorded rs rows (λ id k. h id (ground arith)))

-- After MarkSeenBatch succeeds an id is recorded exactly if it was or is in the batch; after an
-- error the table is as before; and to repeat a batch that succeeded changes nothing.
pub mark_seen_batch_lem :
    (done again : Bool) (items : List SeenRef) (db : Db)
    → let r = mark_seen_batch done items db in
      (r.0 ≡ true
        → (id : Bytes)
        → is_recorded id r.1.seen_events ≡ (is_recorded id items || is_recorded id db.seen_events))
      × (r.0 ≡ false → r.1 ≡ db)
      × (r.0 ≡ true → (mark_seen_batch again items r.1).1.seen_events ≡ r.1.seen_events)
unfolding mark_seen_batch
mark_seen_batch_lem done again [] db = (λ _ id. unfold is_recorded in refl, λ _. refl, λ _. refl)
mark_seen_batch_lem false again (r ∷ rs) db = (λ e. cc, λ _. refl, λ e. cc)
mark_seen_batch_lem true again (r ∷ rs) db =
    (λ _ id. is_recorded-insert_all id (r ∷ rs) db.seen_events, λ e. cc, λ _. repeated again)
  where
    repeated :
        (b : Bool)
        → (mark_seen_batch b
            (r ∷ rs)
            (record db { seen_events = insert_all (r ∷ rs) db.seen_events })).1.seen_events
          ≡ insert_all (r ∷ rs) db.seen_events
    repeated false = refl
    repeated true =
        insert_all-recorded (r ∷ rs) (insert_all (r ∷ rs) db.seen_events)
          (λ id h. ground (arith, is_recorded-insert_all id (r ∷ rs) db.seen_events))

-- MarkFetched sets the time of the last fetch of its pubkey and no other column or row that is
-- read; MarkSwept does so for the time of the last full sweep.
pub mark_fetched-mark_swept :
    (now : ℕ) (pubkey j : Bytes) (db : Db)
    → let f = (mark_fetched true now pubkey db).1 in
      let s = (mark_swept true now pubkey db).1 in
      (last_fetched true j f ≡ (if pubkey == j then some now else last_fetched true j db))
      × (last_swept true j f ≡ last_swept true j db)
      × (last_swept true j s ≡ (if pubkey == j then some now else last_swept true j db))
      × (last_fetched true j s ≡ last_fetched true j db)
unfolding mark_fetched mark_swept last_fetched last_swept state_of
mark_fetched-mark_swept now pubkey j db = elim (Bool-cases (pubkey == j)) [
  | inl e ↦ simp (lookup-put, e) (rw ((bytes_eq_iff pubkey j).0 e) (refl, refl, refl, refl))
  | inr e ↦ simp (lookup-put, e) (refl, refl, refl, refl)
]
