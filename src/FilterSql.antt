-- ===== src/FilterSql.antt =====
-- internal/store/filter_sql.go: a filter becomes the WHERE clause, its positional arguments and a
-- limit. Each condition that the source appends is one `Test` here; `sql` is its text, `args` what is
-- bound to it. `marshal` is json.Marshal of a string. `holds` is the value of a test on a row, which
-- FilterSql/Means ties to the text.
pub mod Placeholders
pub mod Matches
pub mod Means
mod Tests
use archive_relay.Prelude.{
  ℕ, ◌%◌, ◌^◌, Bool, true, false, not, ◌&&◌, ◌||◌, Option, none, some, List, [], ◌∷◌, ◌++◌, map,
  Bytes, bytes, bytes_eq, eq_bytes, nat_eq, eq_nat, ltb, leb, contains, ◌==◌, if◌then◌else◌,
}
use archive_relay.Nostr.{Filter, Tags}
use archive_relay.Rows.{Row}

abbrev pub default_query_limit : ℕ
default_query_limit = 1000

-- Go's int32(k), for k at most 2 ^ 32: `none` is a negative number, which no UInt32 equals.
unfoldable pub int32 : ℕ → Option ℕ
int32 k = let m = k % 2 ^ 32 in if ltb m (2 ^ 31) then some m else none

pub data HotTag : Type 0 where
  tag_e tag_p tag_t : HotTag

abbrev pub letter : HotTag → Bytes
letter tag_e = bytes "e"
letter tag_p = bytes "p"
letter tag_t = bytes "t"

pub data Test : Type 0 where
  id_in : List Bytes → Test
  pubkey_in : List Bytes → Test
  kind_in : List (Option ℕ) → Test
  has_any : HotTag → List Bytes → Test
  tag_d_is : Bytes → Test
  raw_holds : Bytes → Test
  created_from : ℕ → Test
  created_until : ℕ → Test
  not_tombstoned : Test

abbrev pub sql : Test → Bytes
sql (id_in ids) = bytes "id IN (?)"
sql (pubkey_in authors) = bytes "pubkey IN (?)"
sql (kind_in kinds) = bytes "kind IN (?)"
sql (has_any tag_e vals) = bytes "hasAny(tag_e, ?)"
sql (has_any tag_p vals) = bytes "hasAny(tag_p, ?)"
sql (has_any tag_t vals) = bytes "hasAny(tag_t, ?)"
sql (tag_d_is v) = bytes "tag_d = ?"
sql (raw_holds part) = bytes "position(tags_raw, ?) > 0"
sql (created_from t) = bytes "created_at >= ?"
sql (created_until t) = bytes "created_at <= ?"
sql not_tombstoned = bytes "NOT dictHas('tombstone_dict', id)"

pub data Arg : Type 0 where
  strings : List Bytes → Arg
  int32s : List (Option ℕ) → Arg
  text : Bytes → Arg
  uint32 : ℕ → Arg

abbrev pub args : Test → List Arg
args (id_in ids) = strings ids ∷ []
args (pubkey_in authors) = strings authors ∷ []
args (kind_in kinds) = int32s kinds ∷ []
args (has_any tag vals) = strings vals ∷ []
args (tag_d_is v) = text v ∷ []
args (raw_holds part) = text part ∷ []
args (created_from t) = uint32 t ∷ []
args (created_until t) = uint32 t ∷ []
args not_tombstoned = []

abbrev pub unless_empty {ℓ} : {A : Type ℓ} → List A → Test → List Test
unless_empty [] t = []
unless_empty (x ∷ xs) t = t ∷ []

abbrev pub raw_part : (Bytes → Bytes) → Bytes → Bytes → Bytes
raw_part marshal key v = marshal key ++ (bytes "," ++ marshal v)

-- The switch on the key; `v` is the first of the wanted values `v ∷ vals`.
unfoldable pub tag_tests : (Bytes → Bytes) → Bytes → Bytes → List Bytes → List Test
tag_tests marshal key v vals =
    if key == bytes "e"
    then has_any tag_e (v ∷ vals) ∷ []
    else if key == bytes "p"
    then has_any tag_p (v ∷ vals) ∷ []
    else if key == bytes "t"
    then has_any tag_t (v ∷ vals) ∷ []
    else if key == bytes "d"
    then tag_d_is v ∷ []
    else map (λ w. raw_holds (raw_part marshal key w)) (v ∷ vals)

abbrev pub entry_tests : (Bytes → Bytes) → Bytes × List Bytes → List Test
entry_tests marshal (key, []) = []
entry_tests marshal (key, v ∷ vals) = tag_tests marshal key v vals

abbrev pub all_tag_tests : (Bytes → Bytes) → List (Bytes × List Bytes) → List Test
all_tag_tests marshal [] = []
all_tag_tests marshal (entry ∷ rest) = entry_tests marshal entry ++ all_tag_tests marshal rest

abbrev pub when_some : (ℕ → Test) → Option ℕ → List Test
when_some test none = []
when_some test (some t) = test (t % 2 ^ 32) ∷ []

unfoldable pub conds : (Bytes → Bytes) → Filter → List Test
conds marshal f =
    unless_empty f.ids (id_in f.ids)
    ++ (unless_empty f.authors (pubkey_in f.authors)
        ++ (unless_empty f.kinds (kind_in (map int32 f.kinds))
            ++ (all_tag_tests marshal f.tags
                ++ (when_some created_from f.since
                    ++ (when_some created_until f.until ++ not_tombstoned ∷ [])))))

-- strings.Join(conds, " AND ")
abbrev pub join_and : List Bytes → Bytes
join_and [] = []
join_and (c ∷ []) = c
join_and (c ∷ d ∷ cs) = c ++ (bytes " AND " ++ join_and (d ∷ cs))

abbrev pub concat_args : List Test → List Arg
concat_args [] = []
concat_args (t ∷ ts) = args t ++ concat_args ts

unfoldable pub query_limit : Filter → ℕ
query_limit f =
    if ltb f.limit 1 || ltb default_query_limit f.limit then default_query_limit else f.limit

-- The tail is `ORDER BY created_at DESC, id ASC`, the collapse and this limit.
pub record Query : Type 0 where
  pub where_sql : Bytes
  pub bound : List Arg
  pub limit : ℕ

unfoldable pub build_filter_sql : (Bytes → Bytes) → Filter → Query
build_filter_sql marshal f = record {
  where_sql = join_and (map sql (conds marshal f));
  bound = concat_args (conds marshal f);
  limit = query_limit f;
}

-- The DEFAULT of tag_e, tag_p and tag_t: the second elements of the tags with that name.
unfoldable pub tag_column : Bytes → Tags → List Bytes
tag_column name [] = []
tag_column name ((key ∷ value ∷ more) ∷ tags) =
    let rest = tag_column name tags in if key == name then value ∷ rest else rest
tag_column name (tag ∷ tags) = tag_column name tags

-- The DEFAULT of tag_d: the second element of the first such tag; ClickHouse's default is "".
abbrev pub first_or_empty : List Bytes → Bytes
first_or_empty [] = []
first_or_empty (v ∷ vs) = v

abbrev pub any_in : List Bytes → List Bytes → Bool
any_in vals [] = false
any_in vals (v ∷ column) = contains v vals || any_in vals column

abbrev pub kind_listed : ℕ → List (Option ℕ) → Bool
kind_listed kind [] = false
kind_listed kind (none ∷ kinds) = kind_listed kind kinds
kind_listed kind (some k ∷ kinds) = k == kind || kind_listed kind kinds

abbrev pub starts_with : Bytes → Bytes → Bool
starts_with [] whole = true
starts_with (x ∷ xs) [] = false
starts_with (x ∷ xs) (y ∷ ys) = x == y && starts_with xs ys

abbrev pub position_pos : Bytes → Bytes → Bool
position_pos part [] = starts_with part []
position_pos part (y ∷ ys) = starts_with part (y ∷ ys) || position_pos part ys

-- A row passes a test, `dict_has` being the tombstone dictionary.
unfoldable pub holds : (Bytes → Bool) → Row → Test → Bool
holds dict_has row (id_in ids) = contains row.id ids
holds dict_has row (pubkey_in authors) = contains row.pubkey authors
holds dict_has row (kind_in kinds) = kind_listed row.kind kinds
holds dict_has row (has_any tag vals) = any_in vals (tag_column (letter tag) row.tags)
holds dict_has row (tag_d_is v) = first_or_empty (tag_column (bytes "d") row.tags) == v
holds dict_has row (raw_holds part) = position_pos part row.tags_json
holds dict_has row (created_from t) = leb t row.created_at
holds dict_has row (created_until t) = leb row.created_at t
holds dict_has row not_tombstoned = not (dict_has row.id)

unfoldable pub selects : (Bytes → Bool) → List Test → Row → Bool
selects dict_has [] row = true
selects dict_has (t ∷ ts) row = holds dict_has row t && selects dict_has ts row
