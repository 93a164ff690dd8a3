-- ===== src/Control/Prune.antt =====
-- `PruneSeenByRowid` of internal/control/control.go: the oldest rows go, in chunks, each in a
-- transaction of its own. `tx i` says whether the i-th transaction commits. The loop ends after at
-- most one round for each row, which is its fuel.
use archive_relay.Prelude.{
  ℕ, zero, suc, ◌+◌, ◌-◌, ◌≤◌, ◌<◌, ◌≡◌, refl, Bool, true, false, List, arith, min, length,
  length-drop, drop, drop-drop, drop_eq, if-cases, ltb, nat_eq, if◌then◌else◌, ap, ◌∙◌,
}
use archive_relay.Control.{Db, SeenRef}

pub record Pruned : Type 0 where
  pub done : Bool
  pub deleted : ℕ
  pub rows : List SeenRef

module _ (chunk cap : ℕ) (tx : ℕ → Bool) where
  -- One round deletes `got` rows, and reports them only after its commit.
  unfoldable pub prune_loop : ℕ → ℕ → ℕ → ℕ → List SeenRef → Pruned
  prune_loop zero i count deleted rows = record { done = true; deleted = deleted; rows = rows }
  prune_loop (suc fuel) i count deleted rows =
      let n = min chunk (count - cap) in
      let got = min n (length rows) in
      let next = prune_loop fuel (i + 1) (count - got) (deleted + got) (drop n rows) in
      if ltb cap count
      then (if tx i
          then (if nat_eq got 0
              then record { done = true; deleted = deleted; rows = rows }
              else next)
          else record { done = false; deleted = deleted; rows = rows })
      else record { done = true; deleted = deleted; rows = rows }

  -- A cap of 0 is a no-op; `counted` says whether the first query succeeds.
  unfoldable pub prune_seen_by_rowid : Bool → Db → Pruned
  prune_seen_by_rowid counted db =
      if nat_eq cap 0
      then record { done = true; deleted = 0; rows = db.seen_events }
      else if counted
      then prune_loop (length db.seen_events) 0 (length db.seen_events) 0 db.seen_events
      else record { done = false; deleted = 0; rows = db.seen_events }

  record Sound (deleted : ℕ) (rows : List SeenRef) (r : Pruned) : Type 0 where
    grown : deleted ≤ r.deleted
    bounded : r.deleted ≤ deleted + (length rows - cap)
    kept : r.rows ≡ drop (r.deleted - deleted) rows

  Sound-stop :
      (done : Bool) (deleted : ℕ) (rows : List SeenRef)
      → Sound deleted rows (record { done = done; deleted = deleted; rows = rows })
  Sound-stop done deleted rows = record {
    grown = omega arith;
    bounded = omega arith;
    kept = drop_eq {m = 0} {n = deleted - deleted} rows (omega arith);
  }

  Sound-next :
      (n deleted : ℕ) (rows : List SeenRef) (r : Pruned)
      → n ≤ length rows - cap
      → Sound (deleted + n) (drop n rows) r
      → Sound deleted rows r
  Sound-next n deleted rows r h s = record {
    grown = omega (arith, s.grown);
    bounded = omega (arith, s.bounded, length-drop n rows);
    kept =
        s.kept
        ∙ drop-drop n (r.deleted - (deleted + n)) rows
        ∙ drop_eq {m = n + (r.deleted - (deleted + n))} {n = r.deleted - deleted} rows
            (omega (arith, s.grown));
  }

  prune_loop-Sound :
      (fuel i count deleted : ℕ) (rows : List SeenRef)
      → count ≡ length rows
      → Sound deleted rows (prune_loop fuel i count deleted rows)
  unfolding prune_loop
  prune_loop-Sound zero i count deleted rows e = Sound-stop true deleted rows
  prune_loop-Sound (suc fuel) i count deleted rows e =
      let n : ℕ = min chunk (count - cap) in
      let same : min n (length rows) ≡ n = omega (arith, e) in
      let fits : n ≤ length rows - cap = omega (arith, e) in
      let left : count - n ≡ length (drop n rows) = omega (arith, e, length-drop n rows) in
      let rest = prune_loop-Sound fuel (i + 1) (count - n) (deleted + n) (drop n rows) left in
      rw same (
        if-cases (Sound deleted rows) (ltb cap count)
          (λ _.
            if-cases (Sound deleted rows) (tx i)
              (λ _.
                if-cases (Sound deleted rows) (nat_eq n 0) (λ _. Sound-stop true deleted rows)
                  (λ _. Sound-next n deleted rows _ fits rest))
              (λ _. Sound-stop false deleted rows))
          (λ _. Sound-stop true deleted rows))

  -- If every transaction commits, the loop ends with success and `cap` rows are left.
  prune_loop-all :
      (fuel i count deleted : ℕ) (rows : List SeenRef)
      → 0 < chunk
      → ((j : ℕ) → tx j ≡ true)
      → count ≡ length rows
      → count ≤ fuel + cap
      → (length (prune_loop fuel i count deleted rows).rows ≤ cap)
        × ((prune_loop fuel i count deleted rows).done ≡ true)
  unfolding prune_loop
  prune_loop-all zero i count deleted rows c ok e f = (omega (arith, e), refl)
  prune_loop-all (suc fuel) i count deleted rows c ok e f =
      let n : ℕ = min chunk (count - cap) in
      let same : min n (length rows) ≡ n = omega (arith, e) in
      let left : count - n ≡ length (drop n rows) = omega (arith, e, length-drop n rows) in
      let rest = prune_loop-all fuel (i + 1) (count - n) (deleted + n) (drop n rows) c ok left in
      rw (same, ok i)
        (if-cases (λ (r : Pruned). (length r.rows ≤ cap) × (r.done ≡ true)) (ltb cap count)
          (λ more.
            if-cases (λ (r : Pruned). (length r.rows ≤ cap) × (r.done ≡ true)) (nat_eq n 0)
              (λ none_left. absurd (ground arith)) (λ _. rest (ground arith)))
          (λ enough. (ground arith, refl)))

prune-Sound :
    (chunk cap : ℕ) (tx : ℕ → Bool) (counted : Bool) (db : Db)
    → Sound chunk cap tx 0 db.seen_events (prune_seen_by_rowid chunk cap tx counted db)
unfolding prune_seen_by_rowid
prune-Sound chunk cap tx counted db =
    let rows = db.seen_events in
    if-cases (Sound chunk cap tx 0 rows) (nat_eq cap 0) (λ _. Sound-stop chunk cap tx true 0 rows)
      (λ _.
        if-cases (Sound chunk cap tx 0 rows) counted
          (λ _. prune_loop-Sound chunk cap tx (length rows) 0 (length rows) 0 rows refl)
          (λ _. Sound-stop chunk cap tx false 0 rows))

-- Whatever transactions fail, the rows that are left are the newest ones, as many as the table had
-- less the number that is returned, and the newest `cap` rows are never touched.
pub prune_seen_by_rowid_lem :
    (chunk cap : ℕ) (tx : ℕ → Bool) (counted : Bool) (db : Db)
    → let r = prune_seen_by_rowid chunk cap tx counted db in
      (r.rows ≡ drop r.deleted db.seen_events) × (r.deleted ≤ length db.seen_events - cap)
prune_seen_by_rowid_lem chunk cap tx counted db =
    let s = prune-Sound chunk cap tx counted db in
    let r = prune_seen_by_rowid chunk cap tx counted db in
    (
      s.kept ∙ drop_eq {m = r.deleted - 0} {n = r.deleted} db.seen_events (omega arith),
      omega (arith, s.bounded),
    )

-- If the chunk and the cap are positive and every statement succeeds, exactly the rows beyond the
-- newest `cap` are deleted, and the number of them is returned.
pub prune_seen_by_rowid-all :
    (chunk cap : ℕ) (tx : ℕ → Bool) (db : Db)
    → 0 < chunk
    → 0 < cap
    → ((j : ℕ) → tx j ≡ true)
    → let r = prune_seen_by_rowid chunk cap tx true db in
      (r.done ≡ true)
      × (r.deleted ≡ length db.seen_events - cap)
      × (r.rows ≡ drop (length db.seen_events - cap) db.seen_events)
prune_seen_by_rowid-all chunk cap tx db c p ok =
    let rows = db.seen_events in
    let r = prune_seen_by_rowid chunk cap tx true db in
    let s = prune_seen_by_rowid_lem chunk cap tx true db in
    let few : (length r.rows ≤ cap) × (r.done ≡ true) =
      unfold prune_seen_by_rowid in
      if-cases (λ (q : Pruned). (length q.rows ≤ cap) × (q.done ≡ true)) (nat_eq cap 0)
        (λ z. absurd (ground arith))
        (λ _.
          prune_loop-all chunk cap tx (length rows) 0 (length rows) 0 rows c ok refl
            (omega arith)) in
    let all : r.deleted ≡ length rows - cap =
      omega (arith, few.0, s.1, ap length s.0, length-drop r.deleted rows) in
    (few.1, all, s.0 ∙ drop_eq rows all)
