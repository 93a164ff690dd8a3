-- ===== src/Scheduler/Due.antt =====
-- internal/scheduler/scheduler.go: what publishDue does with the due rows.
use archive_relay.Prelude.{
  ℕ, ◌≡◌, refl, sym, ap, ◌∙◌, Bool, true, false, ◌&&◌, ◌||◌, Option, none, some, List, [], ◌∷◌,
  ◌++◌, append_assoc, append-nil, Bytes, eq_bytes, lookup, lookup-erase, ◌==◌, if◌then◌else◌,
  if-cases, arith,
}
use archive_relay.Nostr.{Event}
use archive_relay.Control.{Db, Parked, load_due_scheduled, delete_scheduled}
use archive_relay.Scheduler.{
  Publishing, Tick, remove, publish_one, publish_all, publish_loaded, publish_due, run,
}

module _ (decode : Bytes → Option Event) (publish : Event → Bool) (deletes : Bytes → Bool) where
  abbrev pub settled : Option Event → Bool
  settled none = true
  settled (some evt) = publish evt

  -- The tick removes the row of `id`: the row holds no event, or one that is published, and its
  -- deletion succeeds.
  abbrev pub removed : Bytes → List (Bytes × Parked) → Bool
  removed id [] = false
  removed id ((j, p) ∷ due) =
      (j == id && (settled (decode p.event_json) && deletes j)) || removed id due

  abbrev pub taken : Option Event → List Event
  taken none = []
  taken (some evt) = if publish evt then evt ∷ [] else []

  abbrev pub publishable : List (Bytes × Parked) → List Event
  publishable [] = []
  publishable ((j, p) ∷ due) = taken (decode p.event_json) ++ publishable due

  lookup-delete_scheduled :
      (ok : Bool) (id j : Bytes) (db : Db)
      → lookup id (delete_scheduled ok j db).1.scheduled_events
        ≡ (if j == id && ok then none else lookup id db.scheduled_events)
  unfolding delete_scheduled
  lookup-delete_scheduled false id j db = ground arith
  lookup-delete_scheduled true id j db = ground (arith, lookup-erase j id db.scheduled_events)

  lookup-publish_one :
      (id j : Bytes) (o : Option Event) (s : Publishing)
      → lookup id (publish_one decode publish deletes j o s).db.scheduled_events
        ≡ (if j == id && (settled o && deletes j) then none else lookup id s.db.scheduled_events)
  unfolding publish_one remove
  lookup-publish_one id j none s = lookup-delete_scheduled (deletes j) id j s.db
  lookup-publish_one id j (some evt) s =
      if-cases
        (λ (x : Publishing). lookup id x.db.scheduled_events ≡ (
          if j == id && (publish evt && deletes j) then none else lookup id s.db.scheduled_events))
        (publish evt) (λ h. ground (arith, lookup-delete_scheduled (deletes j) id j s.db))
        (λ h. ground arith)

  published-publish_one :
      (j : Bytes) (o : Option Event) (s : Publishing)
      → (publish_one decode publish deletes j o s).published ≡ s.published ++ taken o
  unfolding publish_one remove
  published-publish_one j none s = sym (append-nil s.published)
  published-publish_one j (some evt) s =
      if-cases (λ (x : Publishing). x.published ≡ s.published ++ taken (some evt)) (publish evt)
        (λ h. rw h refl) (λ h. rw h (sym (append-nil s.published)))

  lookup-publish_all :
      (id : Bytes) (due : List (Bytes × Parked)) (s : Publishing)
      → lookup id (publish_all decode publish deletes due s).db.scheduled_events
        ≡ (if removed id due then none else lookup id s.db.scheduled_events)
  unfolding publish_all
  lookup-publish_all id [] s = refl
  lookup-publish_all id ((j, p) ∷ due) s =
      let s' = publish_one decode publish deletes j (decode p.event_json) s in
      ground (arith, lookup-publish_all id due s', lookup-publish_one id j (decode p.event_json) s)

  published-publish_all :
      (due : List (Bytes × Parked)) (s : Publishing)
      → (publish_all decode publish deletes due s).published ≡ s.published ++ publishable due
  unfolding publish_all
  published-publish_all [] s = sym (append-nil s.published)
  published-publish_all ((j, p) ∷ due) s =
      let o = decode p.event_json in
      published-publish_all due (publish_one decode publish deletes j o s)
      ∙ ap (λ (l : List Event). l ++ publishable due) (published-publish_one j o s)
      ∙ append_assoc s.published (taken o) (publishable due)

  -- A tick that loads the due rows publishes their events in that order, except for those whose
  -- publication fails, and it removes just the rows among them that are settled, that is whose event
  -- was published or that hold no event, and whose deletion succeeds. The other rows stay.
  pub publish_due_lem :
      (loads : Bool) (now : ℕ) (due : List (Bytes × Parked)) (id : Bytes) (s : Publishing)
      → load_due_scheduled loads now 100 s.db ≡ some due
      → let s' = publish_due decode publish deletes loads now s in
        (lookup id s'.db.scheduled_events
          ≡ (if removed id due then none else lookup id s.db.scheduled_events))
        × (s'.published ≡ s.published ++ publishable due)
  unfolding publish_due publish_loaded
  publish_due_lem loads now due id s e =
      rw e (lookup-publish_all id due s, published-publish_all due s)

-- What was published stays so through the ticks of Run.
run-published :
    (decode : Bytes → Option Event) (ticks : List Tick) (s : Publishing)
    → (more : List Event) × ((run decode ticks s).published ≡ s.published ++ more)
unfolding run publish_due publish_loaded
run-published decode [] s = ([], sym (append-nil s.published))
run-published decode (t ∷ ticks) s =
    let s' = publish_due decode t.publish t.deletes t.loads t.now s in
    let (more, e) = run-published decode ticks s' in
    let (first, f) = loaded (load_due_scheduled t.loads t.now 100 s.db) in
    (first ++ more, e ∙ ap (λ (l : List Event). l ++ more) f ∙ append_assoc s.published first more)
  where
    loaded :
        (due : Option (List (Bytes × Parked)))
        → (first : List Event) × ((publish_loaded decode t.publish t.deletes due s).published
            ≡ s.published ++ first)
    loaded none = ([], sym (append-nil s.published))
    loaded (some due) = (
      publishable decode t.publish t.deletes due,
      published-publish_all decode t.publish t.deletes due s,
    )
