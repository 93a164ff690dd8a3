-- ===== src/Dedup/Cache.antt =====
-- What `Seen`, `CheckAndMark` and `Unmark` of internal/crawler/dedup.go say of one another.
use archive_relay.Prelude.{
  ℕ, ◌≡◌, inl, inr, Bool, true, false, not, ◌||◌, ◌&&◌, Option, none, some, Bytes, contains, insert,
  contains-nil, contains-insert, contains-delete, eq_bytes, ==_self, ◌==◌, arith, leb, length,
  Bool-cases, if◌then◌else◌, refl,
}
use archive_relay.Dedup.{
  Dedup, has_key, seen_key, seen, insert_locked, check_and_mark_key, check_and_mark, unmark_key,
  unmark, count_bad_id,
}
use archive_relay.Dedup.Hex.{Key, parse_event_id}

abbrev pub is_some {ℓ} : {A : Type ℓ} → Option A → Bool
is_some none = false
is_some (some a) = true

abbrev pub same : Option Key → Option Key → Bool
same none o = false
same (some k) none = false
same (some k) (some l) = k == l

-- The two ids have one key.
abbrev pub same_key : Bytes → Bytes → Bool
same_key i j = same (parse_event_id i) (parse_event_id j)

module _ (cap now : ℕ) where
  pub has_key-insert_locked :
      (k j : Key) (d : Dedup)
      → has_key j (insert_locked cap now k d) ≡ (
          if leb cap (length (insert k d.cur))
          then (k == j || contains j d.cur)
          else (k == j || contains j d.cur) || contains j d.prev)
  unfolding has_key insert_locked
  has_key-insert_locked k j d = elim (Bool-cases (leb cap (length (insert k d.cur)))) [
    | inl full ↦ rw (full, contains-insert, contains-nil) refl
    | inr room ↦ rw (room, contains-insert) refl
  ]

  pub has_key-insert_locked_self :
      (k : Key) (d : Dedup) → has_key k (insert_locked cap now k d) ≡ true
  has_key-insert_locked_self k d = ground (arith, has_key-insert_locked k k d, ==_self k)

  -- An insertion makes no other key seen.
  pub insert_locked-has_key :
      (k j : Key) (d : Dedup)
      → (k == j) ≡ false
      → has_key j (insert_locked cap now k d) ≡ true
      → has_key j d ≡ true
  unfolding has_key
  insert_locked-has_key k j d ne h = let e = has_key-insert_locked k j d in ground (arith, e)

  check_and_mark_key_lem :
      (o : Option Key) (d : Dedup)
      → ((check_and_mark_key cap now o d).0 ≡ not (seen_key o d))
        × (seen_key o (check_and_mark_key cap now o d).1 ≡ is_some o)
  unfolding check_and_mark_key seen_key has_key
  check_and_mark_key_lem none d = (refl, refl)
  check_and_mark_key_lem (some k) d = (ground arith, ground (arith, has_key-insert_locked_self k d))

  -- CheckAndMark returns the negation of Seen, and an id is seen after it exactly if it is a key.
  pub check_and_mark_lem :
      (id : Bytes) (d : Dedup)
      → ((check_and_mark cap now id d).0 ≡ not (seen id d))
        × (seen id (check_and_mark cap now id d).1 ≡ is_some (parse_event_id id))
  unfolding check_and_mark seen
  check_and_mark_lem id d = check_and_mark_key_lem (parse_event_id id) d

  check_and_mark_key-ne :
      (o p : Option Key) (d : Dedup)
      → same o p ≡ false
      → seen_key p (check_and_mark_key cap now o d).1 ≡ true
      → seen_key p d ≡ true
  unfolding check_and_mark_key seen_key
  check_and_mark_key-ne none p d ne h = h
  check_and_mark_key-ne (some k) none d ne h = cc
  check_and_mark_key-ne (some k) (some j) d ne h = ground (arith, insert_locked-has_key k j d)

  -- CheckAndMark makes no other id seen.
  pub check_and_mark-seen_ne :
      (id j : Bytes) (d : Dedup)
      → same_key id j ≡ false
      → seen j (check_and_mark cap now id d).1 ≡ true
      → seen j d ≡ true
  unfolding check_and_mark seen
  check_and_mark-seen_ne id j d = check_and_mark_key-ne (parse_event_id id) (parse_event_id j) d

seen-unmark_key :
    (o p : Option Key) (d : Dedup) → seen_key p (unmark_key o d) ≡ (not (same o p) && seen_key p d)
unfolding seen_key unmark_key has_key
seen-unmark_key none p d = refl
seen-unmark_key (some k) none d = ground arith
seen-unmark_key (some k) (some j) d =
    ground (arith, contains-delete k j d.cur, contains-delete k j d.prev)

-- After Unmark an id is not seen, and the others are seen as before.
pub seen-unmark :
    (id j : Bytes) (d : Dedup) → seen j (unmark id d) ≡ (not (same_key id j) && seen j d)
unfolding seen unmark
seen-unmark id j d = seen-unmark_key (parse_event_id id) (parse_event_id j) d

seen_key-count_bad_id : (o : Option Key) (d : Dedup) → seen_key o (count_bad_id d) ≡ seen_key o d
unfolding seen_key has_key count_bad_id
seen_key-count_bad_id none d = refl
seen_key-count_bad_id (some k) d = refl

pub seen-count_bad_id : (id : Bytes) (d : Dedup) → seen id (count_bad_id d) ≡ seen id d
unfolding seen
seen-count_bad_id id d = seen_key-count_bad_id (parse_event_id id) d

-- Where the key is seen, the id is one that has a key.
seen_key-is_some : (o : Option Key) (d : Dedup) → seen_key o d ≡ true → is_some o ≡ true
unfolding seen_key
seen_key-is_some none d h = h
seen_key-is_some (some k) d h = refl

pub seen-is_some : (id : Bytes) (d : Dedup) → seen id d ≡ true → is_some (parse_event_id id) ≡ true
unfolding seen
seen-is_some id d = seen_key-is_some (parse_event_id id) d

same_self : (o : Option Key) → same o o ≡ is_some o
same_self none = refl
same_self (some k) = ==_self k

-- Unmark leaves its own id unseen.
pub seen-unmark_self : (id : Bytes) (d : Dedup) → seen id (unmark id d) ≡ false
seen-unmark_self id d =
    ground (arith, seen-unmark id id d, same_self (parse_event_id id), seen-is_some id d)
