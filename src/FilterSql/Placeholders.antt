-- ===== src/FilterSql/Placeholders.antt =====
-- internal/store/filter_sql.go: the placeholders of a WHERE clause and its arguments.
use archive_relay.Prelude.{
  ℕ, ◌+◌, ◌≡◌, refl, List, [], ◌∷◌, ◌++◌, map, Bytes, bytes, nat_eq, length, length-append,
  if◌then◌else◌, arith,
}
use archive_relay.Nostr.{Filter}
use archive_relay.FilterSql.{
  Test, sql, args, join_and, concat_args, conds, build_filter_sql, id_in, pubkey_in, kind_in,
  has_any, tag_e, tag_p, tag_t, tag_d_is, raw_holds, created_from, created_until, not_tombstoned,
}

abbrev pub placeholders : Bytes → ℕ
placeholders [] = 0
placeholders (ch ∷ rest) = (if nat_eq ch b'?' then 1 else 0) + placeholders rest

placeholders-append : (a b : Bytes) → placeholders (a ++ b) ≡ placeholders a + placeholders b
placeholders-append [] b = omega arith
placeholders-append (ch ∷ a) b = omega (arith, placeholders-append a b)

placeholders-sql : (t : Test) → placeholders (sql t) ≡ length (args t)
placeholders-sql (id_in ids) = refl
placeholders-sql (pubkey_in authors) = refl
placeholders-sql (kind_in kinds) = refl
placeholders-sql (has_any tag_e vals) = refl
placeholders-sql (has_any tag_p vals) = refl
placeholders-sql (has_any tag_t vals) = refl
placeholders-sql (tag_d_is v) = refl
placeholders-sql (raw_holds part) = refl
placeholders-sql (created_from t) = refl
placeholders-sql (created_until t) = refl
placeholders-sql not_tombstoned = refl

placeholders-join_and :
    (ts : List Test) → placeholders (join_and (map sql ts)) ≡ length (concat_args ts)
placeholders-join_and [] = refl
placeholders-join_and (t ∷ []) =
    omega (arith, placeholders-sql t, length-append (args t) (concat_args []))
placeholders-join_and (t ∷ u ∷ ts) = omega (
  arith,
  placeholders-append (sql t) (bytes " AND " ++ join_and (map sql (u ∷ ts))),
  placeholders-append (bytes " AND ") (join_and (map sql (u ∷ ts))),
  placeholders-sql t,
  placeholders-join_and (u ∷ ts),
  length-append (args t) (concat_args (u ∷ ts)),
)

-- Whatever the filter asks for, the WHERE clause has exactly as many placeholders as there are
-- arguments bound to it: no wanted value is part of the text, and none is left over.
pub placeholders-build_filter_sql :
    (marshal : Bytes → Bytes) (f : Filter)
    → let q = build_filter_sql marshal f in placeholders q.where_sql ≡ length q.bound
unfolding build_filter_sql
placeholders-build_filter_sql marshal f = placeholders-join_and (conds marshal f)
