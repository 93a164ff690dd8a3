-- ===== src/FilterSql/Tests.antt =====
-- internal/store/filter_sql.go with a filter for replies to a note.
use archive_relay.Prelude.{
  refl, not, ◌&&◌, none, some, [], ◌∷◌, Bytes, bytes, ◌==◌, eq_bytes, arith,
}
use archive_relay.Nostr.{Filter}
use archive_relay.Samples.{id_a, id_b, note_a}
use archive_relay.Rows.{row_from_event}
use archive_relay.FilterSql.{build_filter_sql, tag_e}
use archive_relay.FilterSql.Matches.{matches}
use archive_relay.FilterSql.Means.{Means, build_filter_sql-Means}

abbrev replies : Filter
replies = record {
  ids = [];
  authors = [];
  kinds = 1 ∷ [];
  tags = (bytes "e", id_b ∷ []) ∷ [];
  since = some 900;
  until = none;
  limit = 10;
}

abbrev quote : Bytes → Bytes
quote s = b'"' ∷ s

build_filter_sql-Means_example :
    let q = build_filter_sql quote replies in
    Means
      (λ id. id == id_b)
      (row_from_event (λ tags. []) note_a)
      q.where_sql
      q.bound
      (matches replies note_a && not (id_a == id_b))
build_filter_sql-Means_example =
    build_filter_sql-Means (λ id. id == id_b) quote (λ tags. []) replies note_a
      (((tag_e, refl), refl), tt) (omega arith, tt) (omega arith) tt (omega arith) (omega arith)
