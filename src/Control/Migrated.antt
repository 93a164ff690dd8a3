-- ===== src/Control/Migrated.antt =====
-- internal/control/control.go: what the first Open on the file of an earlier version leaves of it.
use archive_relay.Prelude.{
  ℕ, ◌≡◌, refl, ap, ◌∙◌, sym, Bool, true, false, not, ◌&&◌, Option, none, some, List, [], ◌∷◌,
  Bytes, bytes, bytes_eq, eq_bytes, contains, lookup, ◌==◌, if◌then◌else◌, if-cases, Bool-cases,
  inl, inr, arith,
}
use mathlib.Core.Option.{some-injective}
use archive_relay.Control.{Db, CrawlState, state_of, last_fetched, last_swept}
use archive_relay.Control.Opening.{
  EarlierState, CrawlTable, earlier_rows, current_rows, columns, with_column, add_column, File,
  Statements, created, migrate_crawl_state, states, db_of, opened, open_db,
}

abbrev fetched_of : Option EarlierState → ℕ
fetched_of none = 0
fetched_of (some row) = row.last_fetched

-- The columns of a pubkey in the file, 0 for a pubkey that it does not have; `crawled` is last_fetched,
-- and an earlier version's file has no last_full_sweep.
abbrev pub crawled : CrawlTable → Bytes → ℕ
crawled (earlier_rows rows) pk = fetched_of (lookup pk rows)
crawled (current_rows rows) pk = (state_of (lookup pk rows)).last_fetched

abbrev pub swept : CrawlTable → Bytes → ℕ
swept (earlier_rows rows) pk = 0
swept (current_rows rows) pk = (state_of (lookup pk rows)).last_full_sweep

abbrev pub all_but_alters : Statements → Bool
all_but_alters st = st.opens && (st.creates && (st.queries && (st.scans && st.ends)))

lookup-with_column :
    (pk : Bytes) (rows : List (Bytes × EarlierState))
    → ((state_of (lookup pk (with_column rows))).last_fetched ≡ fetched_of (lookup pk rows))
      × ((state_of (lookup pk (with_column rows))).last_full_sweep ≡ 0)
unfolding lookup state_of
lookup-with_column pk [] = (refl, refl)
lookup-with_column pk ((k, row) ∷ rows) = elim (Bool-cases (k == pk)) [
  | inl e ↦ rw e (refl, refl)
  | inr e ↦ rw e (lookup-with_column pk rows)
]

states-lookup :
    (t : CrawlTable) (pk : Bytes)
    → ((state_of (lookup pk (states t))).last_fetched ≡ crawled t pk)
      × ((state_of (lookup pk (states t))).last_full_sweep ≡ swept t pk)
states-lookup (earlier_rows rows) pk = lookup-with_column pk rows
states-lookup (current_rows rows) pk = (refl, refl)

abbrev pub has_column : CrawlTable → Bool
has_column t = contains (bytes "last_full_sweep") (columns t)

-- Whether the file's crawl_state has the column that LastSwept reads.
abbrev pub has_sweeps : File → Bool
has_sweeps file = elim file.crawl_state [ none ↦ false | some t ↦ has_column t ]

add_column_lem :
    (t : CrawlTable) → (states (add_column t) ≡ states t) × (has_column (add_column t) ≡ true)
unfolding add_column columns contains bytes_eq
add_column_lem (earlier_rows rows) = (refl, refl)
add_column_lem (current_rows rows) = (refl, refl)

-- The migration changes no state that is read, and leaves a table that has the column.
migrate_crawl_state_lem :
    (st : Statements) (t : CrawlTable)
    → let r = migrate_crawl_state st t in
      (states r.1 ≡ states t) × (r.0 ≡ true → has_column r.1 ≡ true)
unfolding migrate_crawl_state
migrate_crawl_state_lem st t =
    let P : Bool × CrawlTable → Type 0 =
      λ r. (states r.1 ≡ states t) × (r.0 ≡ true → has_column r.1 ≡ true) in
    if-cases P (not (st.queries && (st.scans && st.ends))) (λ _. (refl, λ e. absurd (cc e)))
      (λ _.
        if-cases P (has_column t) (λ h. (refl, λ _. h))
          (λ _.
            if-cases P st.alters (λ _. ((add_column_lem t).0, λ _. (add_column_lem t).1))
              (λ _. (refl, λ e. absurd (cc e)))))

opened-some :
    (opens creates : Bool) (r : Bool × CrawlTable) (file : File) (db : Db)
    → let x =
        if not opens
        then (none, file)
        else if not creates
        then (none, file)
        else opened file.others r in
      x.0 ≡ some db
      → (r.0 ≡ true)
        × (db_of r.1 file.others ≡ db)
        × (x.1 ≡ record { crawl_state = some r.1; others = file.others })
opened-some false creates r file db h = absurd (cc h)
opened-some true false r file db h = absurd (cc h)
opened-some true true (false, t) file db h = absurd (cc h)
opened-some true true (true, t) file db h = (refl, some-injective _ db h, refl)

-- On a table that has the column nothing is left to do.
migrate_crawl_state_again :
    (st : Statements) (t : CrawlTable)
    → (st.queries && (st.scans && st.ends)) ≡ true
    → has_column t ≡ true
    → migrate_crawl_state st t ≡ (true, t)
unfolding migrate_crawl_state
migrate_crawl_state_again st t h k = rw (h, k) refl

-- A further Open of a file whose table has the column.
open_db-again :
    (again : Statements) (t : CrawlTable) (others : Db)
    → all_but_alters again ≡ true
    → has_column t ≡ true
    → (open_db again (record { crawl_state = some t; others = others })).0 ≡ some (db_of t others)
unfolding open_db
open_db-again again t others k h =
    let opens : again.opens ≡ true = grind (arith, k) in
    let creates : again.creates ≡ true = grind (arith, k) in
    let rest : (again.queries && (again.scans && again.ends)) ≡ true = grind (arith, k) in
    rw (migrate_crawl_state_again again t rest h, opens, creates) refl

-- An Open that succeeds on the file of this version or of an earlier one leaves a crawl_state with the
-- column last_full_sweep, and gives the times of the last fetches and sweeps that stand in the file,
-- where a missing column counts as no sweep. And every further Open whose queries succeed gives the
-- same tables, with no ALTER TABLE.
pub open_db-crawled :
    (st again : Statements) (file : File) (db : Db) (pk : Bytes)
    → (open_db st file).0 ≡ some db
    → all_but_alters again ≡ true
    → (has_sweeps (open_db st file).1 ≡ true)
      × (last_fetched true pk db ≡ some (crawled (created file.crawl_state) pk))
      × (last_swept true pk db ≡ some (swept (created file.crawl_state) pk))
      × ((open_db again (open_db st file).1).0 ≡ some db)
unfolding open_db last_fetched last_swept
open_db-crawled st again file db pk h k =
    let t = created file.crawl_state in
    let r = migrate_crawl_state st t in
    let (done, same, left) = opened-some st.opens st.creates r file db h in
    let (kept, column) = migrate_crawl_state_lem st t in
    let (f, s) = states-lookup t pk in
    let rows : db.crawl_state ≡ states t = ap (λ (x : Db). x.crawl_state) (sym same) ∙ kept in
    (
      ap has_sweeps left ∙ column done,
      ap (λ (l : List (Bytes × CrawlState)). some (state_of (lookup pk l)).last_fetched) rows
          ∙ ap some f,
      ap (λ (l : List (Bytes × CrawlState)). some (state_of (lookup pk l)).last_full_sweep) rows
          ∙ ap some s,
      ap (λ (x : File). (open_db again x).0) left
          ∙ open_db-again again r.1 file.others k (column done)
          ∙ ap some same,
    )
