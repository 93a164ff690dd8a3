-- ===== src/Schema/Runs.antt =====
-- internal/store/schema.go: which statements initSchema sends, and where it stops.
use archive_relay.Prelude.{
  ◌≡◌, ◌⊎◌, Bool, true, false, Option, none, some, List, [], ◌∷◌, ◌++◌, Bytes, if◌then◌else◌,
}
use archive_relay.Classifier.{Tier, active_tiers}
use archive_relay.Texts.{split_texts}
use archive_relay.Schema.Text.{tier_ddl, events_view_ddl, tombstones_ddl, snapshots_ddl, feed_ddl}
use archive_relay.Schema.{
  ClickHouse, Pool, introspection, dictionary_probe, InitError, truncate, tier_name, table_of,
  alters, materialize, backfill_tags, Result,
}

-- The statements that a start can do without.
abbrev pub IsMutation : Bytes → Type 0
IsMutation q = (t : Tier) × ((q ≡ materialize (table_of t)) ⊎ (q ≡ backfill_tags (table_of t)))

-- `Runs todo db e sent db'`: of the statements `todo`, these were sent, with these outcomes, from a
-- ClickHouse in state `db` to one in state `db'`, and the run ended with error `e`. In order; up to the
-- first that is refused, which the error quotes, or to an unanswered query of the indices of the table
-- whose alterations come next; mutations may come in between, whatever becomes of them.
pub data Runs {S : Type 0} (ch : ClickHouse S)
    : List Bytes → S → Option InitError → List (Bytes × Bool) → S → Type 0 where
  finished : {db : S} → Runs ch [] db none [] db
  accepted :
      {q : Bytes} {todo : List Bytes} {db db' : S} {e : Option InitError}
      {sent : List (Bytes × Bool)}
      → (ch.exec q db).0 ≡ true
      → Runs ch todo (ch.exec q db).1 e sent db'
      → Runs ch (q ∷ todo) db e ((q, true) ∷ sent) db'
  refused :
      {q : Bytes} {todo : List Bytes} {db : S} {e : InitError}
      → (ch.exec q db).0 ≡ false
      → e.quoted ≡ truncate q 80
      → Runs ch (q ∷ todo) db (some e) ((q, false) ∷ []) (ch.exec q db).1
  unanswered :
      {todo : List Bytes} {db : S} (t : Tier) (rest : List Bytes)
      → todo ≡ alters (table_of t) ++ rest
      → ch.have_idx (table_of t) db ≡ none
      → Runs ch todo db (some (record { stage = introspection; quoted = table_of t })) [] db
  beside :
      {q : Bytes} {todo : List Bytes} {db db' : S} {e : Option InitError}
      {sent : List (Bytes × Bool)}
      → IsMutation q
      → Runs ch todo (ch.exec q db).1 e sent db'
      → Runs ch todo db e ((q, (ch.exec q db).0) ∷ sent) db'

abbrev pub pieces : Bytes → List Bytes
pieces ddl = split_texts b';' ddl

abbrev pub tier_statements : (Tier → Bytes) → List Tier → List Bytes
tier_statements ttl [] = []
tier_statements ttl (t ∷ ts) = pieces (tier_ddl (tier_name t) (ttl t)) ++ tier_statements ttl ts

abbrev pub tier_alters : List Tier → List Bytes
tier_alters [] = []
tier_alters (t ∷ ts) = alters (table_of t) ++ tier_alters ts

abbrev pub schema_statements : (Tier → Bytes) → List Bytes
schema_statements ttl =
    tier_statements ttl active_tiers
    ++ (pieces tombstones_ddl
        ++ (pieces snapshots_ddl
            ++ (pieces feed_ddl ++ (tier_alters active_tiers ++ pieces events_view_ddl))))

module _ {S : Type 0} (ch : ClickHouse S) where
  -- The statements that a result has sent more than the pool had.
  abbrev Ran : List Bytes → Pool S → Result S → Type 0
  Ran todo c r =
      (new : List (Bytes × Bool)) × (r.1.sent ≡ c.sent ++ new) × Runs ch todo c.db r.0 new r.1.db

  -- The result of initSchema, by how its statements ended: after the last one it asks whether the
  -- dictionary of the tombstones answers.
  abbrev pub ended : Option InitError → S → Option InitError
  ended (some e) db = some e
  ended none db =
      if ch.probe_dictionary db
      then none
      else some (record { stage = dictionary_probe; quoted = [] })

  -- `r` has run the statements, and then has probed.
  abbrev Probed : List Bytes → Pool S → Result S → Type 0
  Probed todo c r =
      (e : Option InitError) × (new : List (Bytes × Bool)) × (r.1.sent ≡ c.sent ++ new)
      × Runs ch todo c.db e new r.1.db
      × (r.0 ≡ ended e r.1.db)
