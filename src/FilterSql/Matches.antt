-- ===== src/FilterSql/Matches.antt =====
-- internal/store/filter_sql.go: the rows that a query selects beside NIP-01's matching of events.
use archive_relay.Prelude.{
  is_nil, ℕ, ◌%◌, ◌^◌, ◌<◌, ◌≡◌, refl, sym, ap, subst, ◌∙◌, Bool, true, false, not, ◌&&◌, ◌||◌,
  Option, none, some, List, [], ◌∷◌, ◌++◌, map, Bytes, bytes_eq, eq_bytes, eq_nat, leb, contains,
  All, ◌==◌, arith,
}
use archive_relay.Nostr.{Filter, Event, Tags}
use archive_relay.Rows.{Row, row_from_event}
use archive_relay.Rows.Scanning.{native_tags_same}
use archive_relay.FilterSql.{
  int32, HotTag, letter, tag_e, tag_p, tag_t, Test, has_any, id_in, pubkey_in, kind_in,
  created_from, created_until, not_tombstoned, unless_empty, tag_tests, entry_tests, all_tag_tests,
  when_some, conds, tag_column, any_in, kind_listed, holds, selects,
}

-- The event has a tag `key` with one of the values.
unfoldable pub has_tag : Bytes → List Bytes → Tags → Bool
has_tag key vals [] = false
has_tag key vals ((k ∷ v ∷ more) ∷ tags) = (k == key && contains v vals) || has_tag key vals tags
has_tag key vals (tag ∷ tags) = has_tag key vals tags

abbrev pub has_tags : List (Bytes × List Bytes) → Tags → Bool
has_tags [] tags = true
has_tags (entry ∷ rest) tags = has_tag entry.0 entry.1 tags && has_tags rest tags

abbrev pub from : Option ℕ → ℕ → Bool
from none t = true
from (some since) t = leb since t

abbrev pub up_to : Option ℕ → ℕ → Bool
up_to none t = true
up_to (some until) t = leb t until

-- NIP-01: an event matches a filter when every condition that the filter has holds.
unfoldable pub matches : Filter → Event → Bool
matches f evt =
    (is_nil f.ids || contains evt.id f.ids)
    && ((is_nil f.authors || contains evt.pubkey f.authors)
        && ((is_nil f.kinds || contains evt.kind f.kinds)
            && (has_tags f.tags evt.tags
                && (from f.since evt.created_at && up_to f.until evt.created_at))))

-- An entry for e, p or t that wants some value.
abbrev pub Hot : Bytes × List Bytes → Type 0
Hot entry = ((tag : HotTag) × (entry.0 ≡ letter tag)) × (is_nil entry.1 ≡ false)

abbrev pub Below : ℕ → Option ℕ → Type 0
Below n none = Unit
Below n (some t) = t < n

module _ (dict_has : Bytes → Bool) (row : Row) where
  selects-append :
      (xs ys : List Test)
      → selects dict_has (xs ++ ys) row ≡ (selects dict_has xs row && selects dict_has ys row)
  unfolding selects
  selects-append [] ys = refl
  selects-append (x ∷ xs) ys = ground (arith, selects-append xs ys)

  selects-unless_empty {ℓ} :
      {A : Type ℓ} (l : List A) (t : Test)
      → selects dict_has (unless_empty l t) row ≡ (is_nil l || holds dict_has row t)
  unfolding selects
  selects-unless_empty [] t = refl
  selects-unless_empty (x ∷ l) t = ground arith

  selects-since :
      (since : Option ℕ)
      → Below (2 ^ 32) since
      → selects dict_has (when_some created_from since) row ≡ from since row.created_at
  unfolding selects holds
  selects-since none h = refl
  selects-since (some t) h = let e : t % 2 ^ 32 ≡ t = omega arith in rw e (ground arith)

  selects-until :
      (until : Option ℕ)
      → Below (2 ^ 32) until
      → selects dict_has (when_some created_until until) row ≡ up_to until row.created_at
  unfolding selects holds
  selects-until none h = refl
  selects-until (some t) h = let e : t % 2 ^ 32 ≡ t = omega arith in rw e (ground arith)

  tag_tests-letter :
      (marshal : Bytes → Bytes) (tag : HotTag) (v : Bytes) (vals : List Bytes)
      → tag_tests marshal (letter tag) v vals ≡ has_any tag (v ∷ vals) ∷ []
  unfolding tag_tests bytes_eq
  tag_tests-letter marshal tag_e v vals = refl
  tag_tests-letter marshal tag_p v vals = refl
  tag_tests-letter marshal tag_t v vals = refl

pub any_in-tag_column :
    (key : Bytes) (vals : List Bytes) (tags : Tags)
    → any_in vals (tag_column key tags) ≡ has_tag key vals tags
unfolding tag_column has_tag
any_in-tag_column key vals [] = refl
any_in-tag_column key vals ((k ∷ v ∷ more) ∷ tags) = ground (arith, any_in-tag_column key vals tags)
any_in-tag_column key vals ((k ∷ []) ∷ tags) = any_in-tag_column key vals tags
any_in-tag_column key vals ([] ∷ tags) = any_in-tag_column key vals tags

selects-entry_tests :
    (dict_has : Bytes → Bool) (row : Row) (marshal : Bytes → Bytes) (key : Bytes)
    (vals : List Bytes)
    → Hot (key, vals)
    → selects dict_has (entry_tests marshal (key, vals)) row ≡ has_tag key vals row.tags
selects-entry_tests dict_has row marshal key [] h = cc h.1
selects-entry_tests dict_has row marshal key (v ∷ vals) ((tag, e), h) =
    subst (λ k. selects dict_has (tag_tests marshal k v vals) row ≡ has_tag k (v ∷ vals) row.tags)
      (sym e)
      (ap (λ ts. selects dict_has ts row) (tag_tests-letter dict_has row marshal tag v vals) ∙ one)
  where
    one :
        selects dict_has (has_any tag (v ∷ vals) ∷ []) row
        ≡ has_tag (letter tag) (v ∷ vals) row.tags
    one = unfold selects holds in ground (arith, any_in-tag_column (letter tag) (v ∷ vals) row.tags)

selects-all_tag_tests :
    (dict_has : Bytes → Bool) (row : Row) (marshal : Bytes → Bytes)
    (entries : List (Bytes × List Bytes))
    → All Hot entries
    → selects dict_has (all_tag_tests marshal entries) row ≡ has_tags entries row.tags
selects-all_tag_tests dict_has row marshal [] h = unfold selects in refl
selects-all_tag_tests dict_has row marshal ((key, vals) ∷ rest) h = ground (
  arith,
  selects-append dict_has row (entry_tests marshal (key, vals)) (all_tag_tests marshal rest),
  selects-entry_tests dict_has row marshal key vals h.0,
  selects-all_tag_tests dict_has row marshal rest h.1,
)

int32_small : (k : ℕ) → k < 2 ^ 31 → int32 k ≡ some k
unfolding int32
int32_small k h = ground arith

kind_listed-int32 :
    (kind : ℕ) (kinds : List ℕ)
    → All (λ k. k < 2 ^ 31) kinds
    → kind_listed kind (map int32 kinds) ≡ contains kind kinds
unfolding contains
kind_listed-int32 kind [] h = refl
kind_listed-int32 kind (k ∷ kinds) h =
    rw (int32_small k h.0) (ap (λ b. k == kind || b) (kind_listed-int32 kind kinds h.1))

selects-both :
    (dict_has : Bytes → Bool) (row : Row) (xs ys : List Test) {p q : Bool}
    → selects dict_has xs row ≡ p
    → selects dict_has ys row ≡ q
    → selects dict_has (xs ++ ys) row ≡ (p && q)
selects-both dict_has row xs ys {p} {q} e e' = rw (selects-append dict_has row xs ys, e, e') refl

-- The same for any row, as the conditions come.
selects-conds_row :
    (dict_has : Bytes → Bool) (marshal : Bytes → Bytes) (f : Filter) (row : Row)
    → All Hot f.tags
    → All (λ k. k < 2 ^ 31) f.kinds
    → Below (2 ^ 32) f.since
    → Below (2 ^ 32) f.until
    → selects dict_has (conds marshal f) row ≡ (
        (is_nil f.ids || contains row.id f.ids)
        && ((is_nil f.authors || contains row.pubkey f.authors)
            && ((is_nil f.kinds || contains row.kind f.kinds)
                && (has_tags f.tags row.tags
                    && (from f.since row.created_at
                        && (up_to f.until row.created_at && not (dict_has row.id)))))))
unfolding conds holds
selects-conds_row dict_has marshal f row hot kinds since until =
    selects-both dict_has row _ _ (selects-unless_empty dict_has row f.ids (id_in f.ids)) (
      selects-both dict_has row _ _
        (selects-unless_empty dict_has row f.authors (pubkey_in f.authors))
        (selects-both dict_has row _ _
          (selects-unless_empty dict_has row f.kinds (kind_in (map int32 f.kinds))
            ∙ ap (λ b. is_nil f.kinds || b) (kind_listed-int32 row.kind f.kinds kinds))
          (selects-both dict_has row _ _ (selects-all_tag_tests dict_has row marshal f.tags hot) (
            selects-both dict_has row _ _ (selects-since dict_has row f.since since)
              (selects-both dict_has row _ _ (selects-until dict_has row f.until until) last)))))
  where
    last : selects dict_has (not_tombstoned ∷ []) row ≡ not (dict_has row.id)
    last = unfold selects holds in ground arith

and_last :
    (a b c d e f g : Bool)
    → (a && (b && (c && (d && (e && (f && g)))))) ≡ ((a && (b && (c && (d && (e && f))))) && g)
and_last a b c d e f g = ground arith

matches-columns :
    (f : Filter) (evt : Event) (gone selected : Bool) (kind created_at : ℕ) (tags : Tags)
    → kind ≡ evt.kind
    → created_at ≡ evt.created_at
    → tags ≡ evt.tags
    → selected ≡ (
        (is_nil f.ids || contains evt.id f.ids)
        && ((is_nil f.authors || contains evt.pubkey f.authors)
            && ((is_nil f.kinds || contains kind f.kinds)
                && (has_tags f.tags tags
                    && (from f.since created_at && (up_to f.until created_at && not gone))))))
    → selected ≡ (matches f evt && not gone)
unfolding matches
matches-columns f evt gone selected kind created_at tags ek et eg h =
    rw (ek, et, eg) at h
    ∙ and_last (is_nil f.ids || contains evt.id f.ids)
        (is_nil f.authors || contains evt.pubkey f.authors)
        (is_nil f.kinds || contains evt.kind f.kinds) (has_tags f.tags evt.tags)
        (from f.since evt.created_at) (up_to f.until evt.created_at) (not gone)

-- A row of an event is selected exactly if the event matches the filter and is not in the tombstone
-- dictionary: for a filter whose tag entries are e, p or t with some value, numbers that fit
-- their columns and an event with such a kind and timestamp.
pub selects-conds :
    (dict_has : Bytes → Bool) (marshal : Bytes → Bytes) (marshal_tags : Tags → Bytes) (f : Filter)
    (evt : Event)
    → All Hot f.tags
    → All (λ k. k < 2 ^ 31) f.kinds
    → Below (2 ^ 32) f.since
    → Below (2 ^ 32) f.until
    → evt.kind < 2 ^ 31
    → evt.created_at < 2 ^ 32
    → selects dict_has (conds marshal f) (row_from_event marshal_tags evt)
      ≡ (matches f evt && not (dict_has evt.id))
unfolding row_from_event
selects-conds dict_has marshal marshal_tags f evt hot kinds since until kind created =
    let row = row_from_event marshal_tags evt in
    let same_time : evt.created_at % 2 ^ 32 ≡ evt.created_at = omega arith in
    let same_kind : evt.kind % 2 ^ 32 ≡ evt.kind = omega arith in
    matches-columns f evt (dict_has evt.id) _ _ _ _ same_kind same_time (native_tags_same evt.tags)
      (selects-conds_row dict_has marshal f row hot kinds since until)
