-- ===== src/FilterSql/Means.antt =====
-- internal/store/filter_sql.go: the WHERE clause as ClickHouse reads it.
use archive_relay.Prelude.{
  ℕ, ◌^◌, ◌<◌, ◌≡◌, refl, sym, subst, Bool, true, false, not, ◌&&◌, Option, List, [], ◌∷◌, ◌++◌,
  append-nil, map, is_nil, Bytes, bytes, eq_bytes, leb, contains, All, ◌==◌, arith,
}
use archive_relay.Nostr.{Filter, Event, Tags}
use archive_relay.Rows.{Row, row_from_event}
use archive_relay.FilterSql.{
  Test, id_in, pubkey_in, kind_in, has_any, tag_e, tag_p, tag_t, tag_d_is, raw_holds, created_from,
  created_until, not_tombstoned, sql, Arg, strings, int32s, text, uint32, args, unless_empty,
  all_tag_tests, when_some, int32, conds, join_and, concat_args, build_filter_sql, tag_column,
  first_or_empty, any_in, kind_listed, position_pos, holds, selects,
}
use archive_relay.FilterSql.Matches.{Hot, Below, matches, selects-conds}

-- `Means text bound b`: on this row, with `dict_has` for the tombstone dictionary, the text with these
-- values for its question marks has the value `b`. The documented meaning of ClickHouse's expressions,
-- on the columns of internal/store/schema.go.
pub data Means (dict_has : Bytes → Bool) (row : Row) : Bytes → List Arg → Bool → Type 0 where
  id_among :
      {ids : List Bytes}
      → Means dict_has row (bytes "id IN (?)") (strings ids ∷ []) (contains row.id ids)
  pubkey_among :
      {keys : List Bytes}
      → Means dict_has row (bytes "pubkey IN (?)") (strings keys ∷ []) (contains row.pubkey keys)
  kind_among :
      {kinds : List (Option ℕ)}
      → Means dict_has row (bytes "kind IN (?)") (int32s kinds ∷ []) (kind_listed row.kind kinds)
  has_any_e :
      {vals : List Bytes}
      → Means dict_has row
          (bytes "hasAny(tag_e, ?)")
          (strings vals ∷ [])
          (any_in vals (tag_column (bytes "e") row.tags))
  has_any_p :
      {vals : List Bytes}
      → Means dict_has row
          (bytes "hasAny(tag_p, ?)")
          (strings vals ∷ [])
          (any_in vals (tag_column (bytes "p") row.tags))
  has_any_t :
      {vals : List Bytes}
      → Means dict_has row
          (bytes "hasAny(tag_t, ?)")
          (strings vals ∷ [])
          (any_in vals (tag_column (bytes "t") row.tags))
  d_equals :
      {v : Bytes}
      → Means dict_has row
          (bytes "tag_d = ?")
          (text v ∷ [])
          (first_or_empty (tag_column (bytes "d") row.tags) == v)
  has_part :
      {part : Bytes}
      → Means dict_has row
          (bytes "position(tags_raw, ?) > 0")
          (text part ∷ [])
          (position_pos part row.tags_json)
  at_least :
      {t : ℕ} → Means dict_has row (bytes "created_at >= ?") (uint32 t ∷ []) (leb t row.created_at)
  at_most :
      {t : ℕ} → Means dict_has row (bytes "created_at <= ?") (uint32 t ∷ []) (leb row.created_at t)
  not_in_dict :
      Means dict_has row (bytes "NOT dictHas('tombstone_dict', id)") [] (not (dict_has row.id))
  both :
      {a b : Bytes} {xs ys : List Arg} {p q : Bool}
      → Means dict_has row a xs p
      → Means dict_has row b ys q
      → Means dict_has row (a ++ (bytes " AND " ++ b)) (xs ++ ys) (p && q)

module _ (dict_has : Bytes → Bool) (row : Row) where
  sql-Means : (t : Test) → Means dict_has row (sql t) (args t) (holds dict_has row t)
  unfolding holds
  sql-Means (id_in ids) = id_among
  sql-Means (pubkey_in keys) = pubkey_among
  sql-Means (kind_in kinds) = kind_among
  sql-Means (has_any tag_e vals) = has_any_e
  sql-Means (has_any tag_p vals) = has_any_p
  sql-Means (has_any tag_t vals) = has_any_t
  sql-Means (tag_d_is v) = d_equals
  sql-Means (raw_holds part) = has_part
  sql-Means (created_from t) = at_least
  sql-Means (created_until t) = at_most
  sql-Means not_tombstoned = not_in_dict

  and_true : (b : Bool) → b ≡ (b && true)
  and_true b = ground arith

  join_and-Means :
      (ts : List Test)
      → is_nil ts ≡ false
      → Means dict_has row (join_and (map sql ts)) (concat_args ts) (selects dict_has ts row)
  unfolding selects
  join_and-Means [] h = absurd (cc h)
  join_and-Means (t ∷ []) h =
      subst (λ (l : List Arg). Means dict_has row (sql t) l (holds dict_has row t && true))
        (sym (append-nil (args t)))
        (subst (λ (b : Bool). Means dict_has row (sql t) (args t) b)
          (and_true (holds dict_has row t)) (sql-Means t))
  join_and-Means (t ∷ u ∷ ts) h = both (sql-Means t) (join_and-Means (u ∷ ts) refl)

is_nil-append : (xs ys : List Test) → is_nil ys ≡ false → is_nil (xs ++ ys) ≡ false
is_nil-append [] ys h = h
is_nil-append (x ∷ xs) ys h = refl

is_nil-conds : (marshal : Bytes → Bytes) (f : Filter) → is_nil (conds marshal f) ≡ false
unfolding conds
is_nil-conds marshal f = is_nil-append (unless_empty f.ids (id_in f.ids)) _ (
    is_nil-append (unless_empty f.authors (pubkey_in f.authors)) _ (
      is_nil-append (unless_empty f.kinds (kind_in (map int32 f.kinds))) _ (
        is_nil-append (all_tag_tests marshal f.tags) _ (
          is_nil-append (when_some created_from f.since) _
            (is_nil-append (when_some created_until f.until) (not_tombstoned ∷ []) refl)))))

-- On the row of an event the WHERE clause that buildFilterSQL writes, with its arguments in their order,
-- is true exactly if the event matches the filter and is not in the tombstone dictionary: for a filter
-- whose tag entries are e, p or t with some value, numbers that fit their columns and an event with such
-- a kind and timestamp.
pub build_filter_sql-Means :
    (dict_has : Bytes → Bool) (marshal : Bytes → Bytes) (marshal_tags : Tags → Bytes) (f : Filter)
    (evt : Event)
    → All Hot f.tags
    → All (λ k. k < 2 ^ 31) f.kinds
    → Below (2 ^ 32) f.since
    → Below (2 ^ 32) f.until
    → evt.kind < 2 ^ 31
    → evt.created_at < 2 ^ 32
    → let q = build_filter_sql marshal f in
      Means dict_has
        (row_from_event marshal_tags evt)
        q.where_sql
        q.bound
        (matches f evt && not (dict_has evt.id))
unfolding build_filter_sql
build_filter_sql-Means dict_has marshal marshal_tags f evt hot kinds since until kind created =
    let row = row_from_event marshal_tags evt in
    let ts = conds marshal f in
    subst (λ (b : Bool). Means dict_has row (join_and (map sql ts)) (concat_args ts) b)
      (selects-conds dict_has marshal marshal_tags f evt hot kinds since until kind created)
      (join_and-Means dict_has row ts (is_nil-conds marshal f))
