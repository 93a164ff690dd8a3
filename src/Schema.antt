-- ===== src/Schema.antt =====
-- internal/store/schema.go: execParts and initSchema. ClickHouse is the record `ClickHouse` of what it
-- does with a statement or a query; `S` is its state. The ten seconds of the context are left out.
pub mod Text
pub mod Runs
mod Tests
use archive_relay.Prelude.{
  ℕ, Bool, true, false, ◌||◌, Option, none, some, List, [], ◌∷◌, ◌++◌, Bytes, bytes, length, take,
  nat_eq, leb, if◌then◌else◌,
}
use archive_relay.Classifier.{Tier, permanent, archive, social, drop, active_tiers}
use archive_relay.Texts.{split_texts}
use Text.{
  texts, tags_default_expr, tag_e_default_expr, tag_p_default_expr, tag_t_default_expr,
  tag_d_default_expr, tier_ddl, events_view_ddl, tombstones_ddl, snapshots_ddl, feed_ddl,
}

-- The queries answer `none` for an error: of the indices idx_pubkey of a table, and of its mutations
-- that materialize an index.
pub record ClickHouse (S : Type 0) : Type 0 where
  pub exec : Bytes → S → Bool × S
  pub have_idx : Bytes → S → Option ℕ
  pub mat_total : Bytes → S → Option ℕ
  pub probe_dictionary : S → Bool

-- The write pool, with the statements that were sent on it and whether they succeeded.
pub record Pool (S : Type 0) : Type 0 where
  pub db : S
  pub sent : List (Bytes × Bool)

pub data Stage : Type 0 where
  schema_init introspection migration dictionary_probe : Stage

pub record InitError : Type 0 where
  pub stage : Stage
  pub quoted : Bytes

-- The mark is the ellipsis in UTF-8.
unfoldable pub truncate : Bytes → ℕ → Bytes
truncate s n = if leb (length s) n then s else take n s ++ (226 ∷ 128 ∷ 166 ∷ [])

abbrev pub tier_name : Tier → Bytes
tier_name permanent = bytes "permanent"
tier_name archive = bytes "archive"
tier_name social = bytes "social"
tier_name drop = bytes "drop"

abbrev pub table_of : Tier → Bytes
table_of t = bytes "events_" ++ tier_name t

abbrev pub alter : Bytes → List Bytes → Bytes
alter table rest = texts (bytes "ALTER TABLE " ∷ table ∷ rest)

unfoldable pub alters : Bytes → List Bytes
alters table =
    alter table (
      bytes " ADD COLUMN IF NOT EXISTS tags Array(Array(String)) DEFAULT "
      ∷ tags_default_expr
      ∷ bytes " AFTER tags_raw"
      ∷ [])
    ∷ alter table
        (bytes " MODIFY COLUMN tags Array(Array(String)) DEFAULT " ∷ tags_default_expr ∷ [])
    ∷ alter table (bytes " MODIFY COLUMN tag_e Array(String) DEFAULT " ∷ tag_e_default_expr ∷ [])
    ∷ alter table (bytes " MODIFY COLUMN tag_p Array(String) DEFAULT " ∷ tag_p_default_expr ∷ [])
    ∷ alter table (bytes " MODIFY COLUMN tag_t Array(String) DEFAULT " ∷ tag_t_default_expr ∷ [])
    ∷ alter table (bytes " MODIFY COLUMN tag_d String DEFAULT " ∷ tag_d_default_expr ∷ [])
    ∷ alter table (
        bytes " ADD INDEX IF NOT EXISTS idx_pubkey pubkey TYPE bloom_filter(0.01) GRANULARITY 4"
        ∷ [])
    ∷ alter table (bytes " DROP INDEX IF EXISTS idx_content" ∷ [])
    ∷ []

unfoldable pub materialize : Bytes → Bytes
materialize table = alter table (bytes " MATERIALIZE INDEX idx_pubkey" ∷ [])

unfoldable pub backfill_tags : Bytes → Bytes
backfill_tags table =
    alter table
      (bytes " UPDATE tags = JSONExtract(tags_raw, 'Array(Array(String))') WHERE empty(tags)" ∷ [])

-- A failed introspection of the mutations counts as one of them.
abbrev pub or_one : Option ℕ → ℕ
or_one none = 1
or_one (some n) = n

-- An error, or none.
abbrev pub Result : Type 0 → Type 0
Result S = Option InitError × Pool S

module _ {S : Type 0} where
  abbrev pub and_then : Result S → (Pool S → Result S) → Result S
  and_then (none, c) next = next c
  and_then (some e, c) next = (some e, c)

  module _ (ch : ClickHouse S) where
    unfoldable pub send : Bytes → Pool S → Bool × Pool S
    send q c =
        let (ok, db) = ch.exec q c.db in (ok, record { db = db; sent = c.sent ++ (q, ok) ∷ [] })

    unfoldable pub exec_all : Stage → List Bytes → Pool S → Result S
    exec_all stage [] c = (none, c)
    exec_all stage (q ∷ qs) c =
        let (ok, c') = send q c in
        let rest = exec_all stage qs c' in
        if ok then rest else (some (record { stage = stage; quoted = truncate q 80 }), c')

    unfoldable pub exec_parts : Bytes → Pool S → Result S
    exec_parts q c = exec_all schema_init (split_texts b';' q) c

    unfoldable pub create_tiers : (Tier → Bytes) → List Tier → Pool S → Result S
    create_tiers ttl [] c = (none, c)
    create_tiers ttl (t ∷ ts) c =
        and_then (exec_parts (tier_ddl (tier_name t) (ttl t)) c) (create_tiers ttl ts)

    -- MATERIALIZE INDEX and the backfill, whose failures are logged.
    unfoldable pub queue_mutations : Bytes → ℕ → ℕ → Pool S → Result S
    queue_mutations table have_idx mat_total c =
        let c' =
          if nat_eq have_idx 0 || nat_eq mat_total 0 then (send (materialize table) c).1 else c in
        (none, (send (backfill_tags table) c').1)

    unfoldable pub migrate_with : Bytes → Option ℕ → ℕ → Pool S → Result S
    migrate_with table none mat_total c =
        (some (record { stage = introspection; quoted = table }), c)
    migrate_with table (some have_idx) mat_total c =
        and_then (exec_all migration (alters table) c) (queue_mutations table have_idx mat_total)

    unfoldable pub migrate_tiers : List Tier → Pool S → Result S
    migrate_tiers [] c = (none, c)
    migrate_tiers (t ∷ ts) c =
        and_then
          (migrate_with (table_of t) (ch.have_idx (table_of t) c.db)
            (or_one (ch.mat_total (table_of t) c.db)) c)
          (migrate_tiers ts)

    unfoldable pub probe : Pool S → Result S
    probe c =
        if ch.probe_dictionary c.db
        then (none, c)
        else (some (record { stage = dictionary_probe; quoted = [] }), c)

    -- `ttl` is the configured retention of a tier.
    unfoldable pub init_schema : (Tier → Bytes) → Pool S → Result S
    init_schema ttl c = and_then (create_tiers ttl active_tiers c) (λ c1.
        and_then (exec_parts tombstones_ddl c1) (λ c2. and_then (exec_parts snapshots_ddl c2) (λ c3.
          and_then (exec_parts feed_ddl c3) (λ c4.
            and_then (migrate_tiers active_tiers c4)
              (λ c5. and_then (exec_parts events_view_ddl c5) probe)))))
