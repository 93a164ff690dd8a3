-- ===== src/Schema/Text.antt =====
-- internal/store/schema.go and internal/store/feed.go: the texts of the statements.
use archive_relay.Prelude.{List, [], ◌∷◌, ◌++◌, Bytes, bytes, is_nil, if◌then◌else◌}

-- Go's `+` on strings, from left to right.
abbrev pub texts : List Bytes → Bytes
texts [] = []
texts (t ∷ ts) = t ++ texts ts

unfoldable pub tags_default_expr : Bytes
tags_default_expr = texts (bytes "JSONExtract(tags_raw, 'Array(Array(String))')" ∷ [])

unfoldable pub tag_e_default_expr : Bytes
tag_e_default_expr =
    texts (bytes "arrayMap(x -> x[2], arrayFilter(x -> length(x) >= 2 AND x[1] = 'e', tags))" ∷ [])

unfoldable pub tag_p_default_expr : Bytes
tag_p_default_expr =
    texts (bytes "arrayMap(x -> x[2], arrayFilter(x -> length(x) >= 2 AND x[1] = 'p', tags))" ∷ [])

unfoldable pub tag_t_default_expr : Bytes
tag_t_default_expr =
    texts (bytes "arrayMap(x -> x[2], arrayFilter(x -> length(x) >= 2 AND x[1] = 't', tags))" ∷ [])

unfoldable pub tag_d_default_expr : Bytes
tag_d_default_expr = texts (bytes "arrayFirst(x -> length(x) >= 2 AND x[1] = 'd', tags)[2]" ∷ [])

unfoldable pub tier_columns_type : Bytes
tier_columns_type = texts (
    bytes "\n"
    ∷ bytes "  id           String,\n"
    ∷ bytes "  pubkey       String,\n"
    ∷ bytes "  created_at   UInt32,\n"
    ∷ bytes "  kind         UInt32,\n"
    ∷ bytes "  content      String,\n"
    ∷ bytes "  sig          String,\n"
    ∷ bytes "  tags_raw     String,\n"
    ∷ bytes "  tags         Array(Array(String)) DEFAULT "
    ∷ tags_default_expr
    ∷ bytes ",\n"
    ∷ bytes "  tag_e        Array(String) DEFAULT "
    ∷ tag_e_default_expr
    ∷ bytes ",\n"
    ∷ bytes "  tag_p        Array(String) DEFAULT "
    ∷ tag_p_default_expr
    ∷ bytes ",\n"
    ∷ bytes "  tag_t        Array(String) DEFAULT "
    ∷ tag_t_default_expr
    ∷ bytes ",\n"
    ∷ bytes "  tag_d        String DEFAULT "
    ∷ tag_d_default_expr
    ∷ bytes ",\n"
    ∷ bytes "  reply_to     String,\n"
    ∷ bytes "  received_at  DateTime64(3) DEFAULT now64(3),\n"
    ∷ bytes "  version      UInt32 MATERIALIZED created_at,\n"
    ∷ bytes "  INDEX idx_id      id      TYPE bloom_filter(0.01) GRANULARITY 4,\n"
    ∷ bytes "  INDEX idx_tag_e   tag_e   TYPE bloom_filter(0.01) GRANULARITY 4,\n"
    ∷ bytes "  INDEX idx_tag_p   tag_p   TYPE bloom_filter(0.01) GRANULARITY 4,\n"
    ∷ bytes "  INDEX idx_tag_t   tag_t   TYPE bloom_filter(0.01) GRANULARITY 4,\n"
    ∷ bytes "  INDEX idx_pubkey pubkey TYPE bloom_filter(0.01) GRANULARITY 4\n"
    ∷ [])

unfoldable pub tier_columns_type_no_indexes : Bytes
tier_columns_type_no_indexes = texts (
    bytes "\n"
    ∷ bytes "  id           String,\n"
    ∷ bytes "  pubkey       String,\n"
    ∷ bytes "  created_at   UInt32,\n"
    ∷ bytes "  kind         UInt32,\n"
    ∷ bytes "  content      String,\n"
    ∷ bytes "  sig          String,\n"
    ∷ bytes "  tags_raw     String,\n"
    ∷ bytes "  tags         Array(Array(String)),\n"
    ∷ bytes "  tag_e        Array(String) DEFAULT "
    ∷ tag_e_default_expr
    ∷ bytes ",\n"
    ∷ bytes "  tag_p        Array(String) DEFAULT "
    ∷ tag_p_default_expr
    ∷ bytes ",\n"
    ∷ bytes "  tag_t        Array(String) DEFAULT "
    ∷ tag_t_default_expr
    ∷ bytes ",\n"
    ∷ bytes "  tag_d        String DEFAULT "
    ∷ tag_d_default_expr
    ∷ bytes ",\n"
    ∷ bytes "  reply_to     String,\n"
    ∷ bytes "  received_at  DateTime64(3) DEFAULT now64(3)"
    ∷ [])

-- `ttl_delete` of "" keeps the rows for ever.
unfoldable pub ttl_clause : Bytes → Bytes
ttl_clause ttl_delete =
    if is_nil ttl_delete
    then []
    else texts
        (bytes "\n  TTL toDateTime(created_at) + INTERVAL " ∷ ttl_delete ∷ bytes " DELETE" ∷ [])

unfoldable pub tier_ddl : Bytes → Bytes → Bytes
tier_ddl name ttl_delete = texts (
    bytes "\n"
    ∷ bytes "CREATE TABLE IF NOT EXISTS events_"
    ∷ name
    ∷ bytes " ("
    ∷ tier_columns_type
    ∷ bytes "\n"
    ∷ bytes ") ENGINE = ReplacingMergeTree(version)\n"
    ∷ bytes "  PARTITION BY toYYYYMM(toDateTime(created_at))\n"
    ∷ bytes "  ORDER BY (kind, pubkey, created_at, id)"
    ∷ ttl_clause ttl_delete
    ∷ bytes "\n"
    ∷ bytes "  SETTINGS index_granularity = 8192;\n"
    ∷ [])

unfoldable pub events_view_ddl : Bytes
events_view_ddl = texts (
    bytes "\n"
    ∷ bytes "CREATE OR REPLACE VIEW events_all AS\n"
    ∷ bytes "  SELECT * FROM events_permanent\n"
    ∷ bytes "  UNION ALL SELECT * FROM events_archive\n"
    ∷ bytes "  UNION ALL SELECT * FROM events_social;\n"
    ∷ [])

unfoldable pub tombstones_ddl : Bytes
tombstones_ddl = texts (
    bytes "\n"
    ∷ bytes "CREATE TABLE IF NOT EXISTS tombstones (\n"
    ∷ bytes "  id         String,\n"
    ∷ bytes "  reason     LowCardinality(String),\n"
    ∷ bytes "  deleted_by String,\n"
    ∷ bytes "  deleted_at DateTime64(3) DEFAULT now64(3)\n"
    ∷ bytes ") ENGINE = MergeTree ORDER BY (id, deleted_at);\n"
    ∷ bytes "\n"
    ∷ bytes "CREATE DICTIONARY IF NOT EXISTS tombstone_dict (\n"
    ∷ bytes "  id String DEFAULT ''\n"
    ∷ bytes ")\n"
    ∷ bytes "PRIMARY KEY id\n"
    ∷ bytes "SOURCE(CLICKHOUSE(TABLE 'tombstones'))\n"
    ∷ bytes "LAYOUT(HASHED())\n"
    ∷ bytes "LIFETIME(MIN 0 MAX 60);\n"
    ∷ [])

unfoldable pub snapshots_ddl : Bytes
snapshots_ddl = texts (
    bytes "\n"
    ∷ bytes "CREATE TABLE IF NOT EXISTS stats_note_monthly (\n"
    ∷ bytes "  note_id String,\n"
    ∷ bytes "  month   Date,\n"
    ∷ bytes "  metric  LowCardinality(String),\n"
    ∷ bytes "  count   UInt64,\n"
    ∷ bytes "  sats    UInt64\n"
    ∷ bytes ") ENGINE = SummingMergeTree\n"
    ∷ bytes "  PARTITION BY toYYYYMM(month)\n"
    ∷ bytes "  ORDER BY (note_id, month, metric);\n"
    ∷ bytes "\n"
    ∷ bytes "CREATE TABLE IF NOT EXISTS stats_daily (\n"
    ∷ bytes "  day    Date,\n"
    ∷ bytes "  metric LowCardinality(String),\n"
    ∷ bytes "  value  UInt64\n"
    ∷ bytes ") ENGINE = SummingMergeTree\n"
    ∷ bytes "  PARTITION BY toYYYYMM(day)\n"
    ∷ bytes "  ORDER BY (day, metric);\n"
    ∷ bytes "\n"
    ∷ bytes "CREATE TABLE IF NOT EXISTS stats_daily_active (\n"
    ∷ bytes "  day     Date,\n"
    ∷ bytes "  authors AggregateFunction(uniq, String)\n"
    ∷ bytes ") ENGINE = AggregatingMergeTree ORDER BY day;\n"
    ∷ bytes "\n"
    ∷ bytes "CREATE TABLE IF NOT EXISTS author_follower_counts (\n"
    ∷ bytes "  pubkey    String,\n"
    ∷ bytes "  followers UInt64\n"
    ∷ bytes ") ENGINE = MergeTree ORDER BY pubkey;\n"
    ∷ bytes "\n"
    ∷ bytes "-- Staging twin for the followers swap: refresh builds into staging, then\n"
    ∷ bytes "-- EXCHANGE TABLES swaps atomically (P3 F13). Truncated before each build.\n"
    ∷ bytes "CREATE TABLE IF NOT EXISTS author_follower_counts_staging (\n"
    ∷ bytes "  pubkey    String,\n"
    ∷ bytes "  followers UInt64\n"
    ∷ bytes ") ENGINE = MergeTree ORDER BY pubkey;\n"
    ∷ [])

-- 7 is feedRetention in days.
unfoldable pub feed_ddl : Bytes
feed_ddl = texts (
    bytes "\n"
    ∷ bytes "CREATE TABLE IF NOT EXISTS events_feed ("
    ∷ tier_columns_type_no_indexes
    ∷ bytes "\n"
    ∷ bytes ") ENGINE = MergeTree\n"
    ∷ bytes "  PARTITION BY toYYYYMMDD(toDateTime(created_at))\n"
    ∷ bytes "  ORDER BY (created_at, id)\n"
    ∷ bytes "  TTL toDateTime(created_at) + INTERVAL "
    ∷ bytes "7"
    ∷ bytes " DAY DELETE\n"
    ∷ bytes "  SETTINGS index_granularity = 8192;\n"
    ∷ [])
