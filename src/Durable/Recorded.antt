-- ===== src/Durable/Recorded.antt =====
-- cmd/archive-relay/main.go with internal/crawler/dedup.go: which ids the table seen_events holds.
use archive_relay.Prelude.{
  ℕ, zero, suc, ◌+◌, ◌-◌, ◌≤◌, subst, drop, ◌≡◌, refl, ap, ◌∙◌, Bool, true, false, ◌||◌, Option,
  none, some, List, [], ◌∷◌, ◌++◌, map, All, Bytes, length, length-append, ltb, leb, insert, ◌==◌,
  eq_bytes, if-cases, arith,
}
use archive_relay.Nostr.{Event}
use archive_relay.Control.{Db, SeenRef, is_recorded, keep_since, prune_seen}
use archive_relay.Control.Prune.{prune_seen_by_rowid, prune_seen_by_rowid_lem}
use archive_relay.Dedup.{
  Dedup, mark, mark_key, mark_many, insert_locked, ref_of, offer_refs, on_flushed, write_queue_cap,
}
use archive_relay.Dedup.Hex.{parse_event_id}
use archive_relay.Dedup.Queue.{
  any_recorded, stop_writer_lem, stop_writer-known, is_recorded-mark_seen_batch,
}
use archive_relay.Dedup.Writer.{Outcome, written, start_writer, take_batch, write_turn}
use archive_relay.Durable.{
  Move, flushes, writes_queued, prunes, Tick, prune_seen_chunk, prune_max_age, cap_or_default,
  prune_tick, move, run_moves, run_main,
}

abbrev pub has_id : Bytes → List Event → Bool
has_id id [] = false
has_id id (ev ∷ evts) = ev.id == id || has_id id evts

-- Some call of onFlushed was given an event with the id.
abbrev pub flushed : Bytes → List Move → Bool
flushed id [] = false
flushed id (flushes now evts ∷ ms) = has_id id evts || flushed id ms
flushed id (writes_queued done ∷ ms) = flushed id ms
flushed id (prunes seen_cap tick ∷ ms) = flushed id ms

abbrev pub count_flushes : List Move → ℕ
count_flushes [] = 0
count_flushes (flushes now evts ∷ ms) = count_flushes ms + 1
count_flushes (writes_queued done ∷ ms) = count_flushes ms
count_flushes (prunes seen_cap tick ∷ ms) = count_flushes ms

-- A move that loses no id: a callback, or a write that succeeds.
abbrev pub is_done : Move → Bool
is_done (flushes now evts) = true
is_done (writes_queued done) = done
is_done (prunes seen_cap tick) = false

-- Queued or in the table.
abbrev known : Bytes → Dedup × Db → Bool
known id s = any_recorded id s.0.write_q || is_recorded id s.1.seen_events

Queueless : Dedup → Dedup → Type 0
Queueless d d' = (d'.write_q ≡ d.write_q) × (d'.writer_running ≡ d.writer_running)

mark-Queueless : (cap now : ℕ) (id : Bytes) (d : Dedup) → Queueless d (mark cap now id d)
unfolding mark mark_key insert_locked Queueless
mark-Queueless cap now id d = by_key (parse_event_id id)
  where
    by_key : (k : Option _) → Queueless d (mark_key cap now k d)
    by_key none = (refl, refl)
    by_key (some k) =
        if-cases (Queueless d) (leb cap (length (insert k d.cur))) (λ _. (refl, refl))
          (λ _. (refl, refl))

mark_many-Queueless :
    (cap now : ℕ) (ids : List Bytes) (d : Dedup) → Queueless d (mark_many cap now ids d)
unfolding mark_many Queueless
mark_many-Queueless cap now [] d = (refl, refl)
mark_many-Queueless cap now (id ∷ ids) d =
    let h = mark-Queueless cap now id d in
    let rest = mark_many-Queueless cap now ids (mark cap now id d) in (rest.0 ∙ h.0, rest.1 ∙ h.1)

is_recorded-ref_of :
    (id : Bytes) (evts : List Event) → is_recorded id (map ref_of evts) ≡ has_id id evts
unfolding is_recorded
is_recorded-ref_of id [] = refl
is_recorded-ref_of id (ev ∷ evts) = ap (λ b. ev.id == id || b) (is_recorded-ref_of id evts)

any_recorded-snoc :
    (id : Bytes) (q : List (List SeenRef)) (refs : List SeenRef)
    → any_recorded id (q ++ refs ∷ []) ≡ (any_recorded id q || is_recorded id refs)
unfolding any_recorded
any_recorded-snoc id [] refs = ground arith
any_recorded-snoc id (b ∷ q) refs = ground (arith, any_recorded-snoc id q refs)

-- What a move does to the queue and to the table, as far as an id can tell.
record Moved (id : Bytes) (m : Move) (s s' : Dedup × Db) : Type 0 where
  sound : known id s' ≡ true → (flushed id (m ∷ []) || known id s) ≡ true
  complete :
      is_done m ≡ true
      → length s.0.write_q + count_flushes (m ∷ []) ≤ write_queue_cap
      → known id s' ≡ (flushed id (m ∷ []) || known id s)
  grows : length s'.0.write_q ≤ length s.0.write_q + count_flushes (m ∷ [])
  running : s'.0.writer_running ≡ s.0.writer_running

offer_refs-Moved :
    (now : ℕ) (evts : List Event) (id : Bytes) (d0 d : Dedup) (db : Db)
    → Queueless d0 d
    → Moved id (flushes now evts) (d0, db) (offer_refs (map ref_of evts) d, db)
unfolding offer_refs Queueless
offer_refs-Moved now evts id d0 d db (same, run) =
    let snoc = any_recorded-snoc id d.write_q (map ref_of evts) in
    let refs = is_recorded-ref_of id evts in
    let q = ap (any_recorded id) same in
    let n = ap (λ (l : List (List SeenRef)). length l) same in
    if-cases (λ (x : Dedup). Moved id (flushes now evts) (d0, db) (x, db))
      (ltb (length d.write_q) write_queue_cap)
      (λ room. record {
        sound = ground (arith, snoc, refs, q);
        complete = λ _ _. ground (arith, snoc, refs, q);
        grows = omega (arith, n, length-append d.write_q (map ref_of evts ∷ []));
        running = run;
      })
      (λ full. record {
        sound = ground (arith, q);
        complete = λ _ h. absurd (ground (arith, full, h, n));
        grows = omega (arith, n);
        running = run;
      })

on_flushed-Moved :
    (cap now : ℕ) (evts : List Event) (id : Bytes) (d : Dedup) (db : Db)
    → Moved id (flushes now evts) (d, db) (on_flushed cap now evts d, db)
unfolding on_flushed
on_flushed-Moved cap now [] id d db = record {
  sound = λ h. h;
  complete = λ _ _. refl;
  grows = omega arith;
  running = refl;
}
on_flushed-Moved cap now (ev ∷ evts) id d db =
    offer_refs-Moved now (ev ∷ evts) id d _ db
      (mark_many-Queueless cap now (map (λ (e : Event). e.id) (ev ∷ evts)) d)

write_turn-Moved :
    (done : Bool) (id : Bytes) (d : Dedup) (db : Db)
    → Moved id (writes_queued done) (d, db) (write_turn done d db)
unfolding write_turn take_batch any_recorded
write_turn-Moved done id d db = by_queue d.write_q refl
  where
    by_queue :
        (q : List (List SeenRef))
        → d.write_q ≡ q
        → Moved id (writes_queued done) (d, db) (take_batch done q d db)
    by_queue [] e = record {
      sound = λ h. h;
      complete = λ _ _. refl;
      grows = omega arith;
      running = refl;
    }
    by_queue (b ∷ q) e =
        let r = is_recorded-mark_seen_batch done b db id in
        let k = ap (any_recorded id) e in
        record {
          sound = ground (arith, r, k);
          complete = λ ok _. ground (arith, r, k, ok);
          grows = omega (arith, ap (λ (l : List (List SeenRef)). length l) e);
          running = refl;
        }

is_recorded-keep_since :
    (id : Bytes) (cutoff : ℕ) (rows : List SeenRef)
    → is_recorded id (keep_since cutoff rows) ≡ true
    → is_recorded id rows ≡ true
unfolding is_recorded keep_since
is_recorded-keep_since id cutoff [] h = h
is_recorded-keep_since id cutoff (r ∷ rows) h =
    ground (arith, h, is_recorded-keep_since id cutoff rows)

is_recorded-drop :
    (id : Bytes) (n : ℕ) (rows : List SeenRef)
    → is_recorded id (drop n rows) ≡ true
    → is_recorded id rows ≡ true
unfolding is_recorded
is_recorded-drop id zero rows h = h
is_recorded-drop id (suc n) [] h = h
is_recorded-drop id (suc n) (r ∷ rows) h = ground (arith, is_recorded-drop id n rows h)

is_recorded-prune_seen :
    (ok : Bool) (now max_age : ℕ) (id : Bytes) (db : Db)
    → is_recorded id (prune_seen ok now max_age db).1.seen_events ≡ true
    → is_recorded id db.seen_events ≡ true
unfolding prune_seen
is_recorded-prune_seen false now max_age id db h = h
is_recorded-prune_seen true now max_age id db h =
    is_recorded-keep_since id (now - max_age) db.seen_events h

prune_tick-Moved :
    (seen_cap : ℕ) (tick : Tick) (id : Bytes) (d : Dedup) (db : Db)
    → Moved id (prunes seen_cap tick) (d, db) (d, prune_tick seen_cap tick db)
unfolding prune_tick
prune_tick-Moved seen_cap tick id d db =
    let db' = (prune_seen tick.ages tick.now prune_max_age db).1 in
    let cap = cap_or_default seen_cap in
    let r = prune_seen_by_rowid prune_seen_chunk cap tick.tx tick.counts db' in
    let by_cap : is_recorded id r.rows ≡ true → is_recorded id db'.seen_events ≡ true = λ h.
      is_recorded-drop id r.deleted db'.seen_events (
        subst (λ (l : List SeenRef). is_recorded id l ≡ true)
          (prune_seen_by_rowid_lem prune_seen_chunk cap tick.tx tick.counts db').0 h) in
    record {
      sound = λ h.
          ground (arith, h, by_cap, is_recorded-prune_seen tick.ages tick.now prune_max_age id db);
      complete = λ e. absurd (cc e);
      grows = omega arith;
      running = refl;
    }

move-Moved : (cap : ℕ) (m : Move) (id : Bytes) (s : Dedup × Db) → Moved id m s (move cap m s)
unfolding move
move-Moved cap (flushes now evts) id (d, db) = on_flushed-Moved cap now evts id d db
move-Moved cap (writes_queued done) id (d, db) = write_turn-Moved done id d db
move-Moved cap (prunes seen_cap tick) id (d, db) = prune_tick-Moved seen_cap tick id d db

-- What a run of moves does; the second part is about moves whose writes succeed and that are too few
-- to fill the queue.
record Ran (id : Bytes) (ms : List Move) (s s' : Dedup × Db) : Type 0 where
  sound : known id s' ≡ true → (flushed id ms || known id s) ≡ true
  complete :
      All (λ m. is_done m ≡ true) ms
      → length s.0.write_q + count_flushes ms ≤ write_queue_cap
      → known id s' ≡ (flushed id ms || known id s)
  running : s'.0.writer_running ≡ s.0.writer_running

flushed-cons :
    (id : Bytes) (m : Move) (ms : List Move)
    → (flushed id (m ∷ ms) ≡ (flushed id (m ∷ []) || flushed id ms))
      × (count_flushes (m ∷ ms) ≡ count_flushes (m ∷ []) + count_flushes ms)
flushed-cons id (flushes now evts) ms = (ground arith, omega arith)
flushed-cons id (writes_queued done) ms = (refl, omega arith)
flushed-cons id (prunes seen_cap tick) ms = (refl, omega arith)

run_moves-Ran :
    (cap : ℕ) (ms : List Move) (id : Bytes) (s : Dedup × Db) → Ran id ms s (run_moves cap ms s)
unfolding run_moves
run_moves-Ran cap [] id s = record { sound = λ h. h; complete = λ _ _. refl; running = refl }
run_moves-Ran cap (m ∷ ms) id s =
    let one = move-Moved cap m id s in
    let rest = run_moves-Ran cap ms id (move cap m s) in
    let (both, count) = flushed-cons id m ms in
    record {
      sound = λ h. ground (arith, both, rest.sound h, one.sound);
      complete = λ done few.
          let now = one.complete done.0 (omega (arith, few, count)) in
          let later = rest.complete done.1 (omega (arith, few, count, one.grows)) in
          ground (arith, both, now, later);
      running = rest.running ∙ one.running;
    }

start_writer_lem :
    (d : Dedup) → ((start_writer d).write_q ≡ d.write_q) × ((start_writer d).writer_running ≡ true)
unfolding start_writer
start_writer_lem d =
    if-cases (λ (x : Dedup). (x.write_q ≡ d.write_q) × (x.writer_running ≡ true)) d.writer_running
      (λ h. (refl, h)) (λ _. (refl, refl))

pub run_main_lem :
    (cap : ℕ) (ms : List Move) (o : ℕ → Outcome) (id : Bytes) (d : Dedup) (db : Db)
    → d.write_q ≡ []
    → let before = run_moves cap ms (start_writer d, db) in
      let r = run_main cap ms o d db in
      let due = flushed id ms || is_recorded id db.seen_events in
      (is_recorded id before.1.seen_events ≡ true → due ≡ true)
      × (is_recorded id r.1.seen_events ≡ true → due ≡ true)
      × (r.0.write_q ≡ [])
      × (All (λ m. is_done m ≡ true) ms
          → ((j : ℕ) → o j ≡ written)
          → count_flushes ms ≤ write_queue_cap
          → is_recorded id r.1.seen_events ≡ due)
unfolding run_main any_recorded
run_main_lem cap ms o id d db empty =
    let d0 = start_writer d in
    let (same, started) = start_writer_lem d in
    let ran = run_moves-Ran cap ms id (d0, db) in
    let before = run_moves cap ms (d0, db) in
    let stop = stop_writer_lem o before.0 before.1 (ran.running ∙ started) in
    let at_start : any_recorded id d0.write_q ≡ false = ap (any_recorded id) (same ∙ empty) in
    let none_queued : length d0.write_q ≡ 0 =
      ap (λ (l : List (List SeenRef)). length l) (same ∙ empty) in
    let due : known id (d0, db) ≡ is_recorded id db.seen_events = ground (arith, at_start) in
    (
      λ h. ground (arith, h, ran.sound, due),
      λ h. ground (arith, stop_writer-known o before.0 before.1 id h, ran.sound, due),
      stop.0,
      λ done ok few.
          ground (arith, stop.3 ok id, ran.complete done (omega (arith, none_queued, few)), due),
    )

-- From an empty queue, in whatever order the batchers' callbacks and the writer's turns come: if
-- every write succeeds in time, nothing is pruned, and there are at most as many callbacks as the
-- queue has room for, then after the shutdown the table holds exactly the ids that it held at the start and those that onFlushed was
-- given, and the queue is empty.
pub run_main-is_recorded :
    (cap : ℕ) (ms : List Move) (o : ℕ → Outcome) (id : Bytes) (d : Dedup) (db : Db)
    → d.write_q ≡ []
    → All (λ m. is_done m ≡ true) ms
    → ((j : ℕ) → o j ≡ written)
    → count_flushes ms ≤ write_queue_cap
    → let r = run_main cap ms o d db in
      (r.0.write_q ≡ [])
      × (is_recorded id r.1.seen_events ≡ (flushed id ms || is_recorded id db.seen_events))
run_main-is_recorded cap ms o id d db empty done ok few =
    let r = run_main_lem cap ms o id d db empty in (r.2, r.3 done ok few)
