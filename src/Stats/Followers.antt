-- ===== src/Stats/Followers.antt =====
-- internal/stats/stats.go: the follower counts that are served, and when a refresh replaces them.
use archive_relay.Prelude.{
  ℕ, ◌≡◌, refl, ap, ◌∙◌, Bool, true, false, not, ◌&&◌, Option, none, some, List, [], Bytes, sort_by,
  bytes, eq_bytes, length, ◌==◌, if◌then◌else◌, if-cases, arith,
}
use archive_relay.Rows.{Row}
use archive_relay.Rolling.{ids_of, grouped, total}
use archive_relay.Rolling.Buckets.{total-grouped}
use archive_relay.Stats.Winners.{AreWinners, authors_naming, selected-AreWinners, ids_of-follows}
use archive_relay.Stats.{
  newer, contact_lists, first_by_pubkey, Service, Statements, check_engine, swap_followers,
  refresh_followers, follower_pairs,
}

-- The database is known to be Atomic, from an earlier refresh or from this one.
abbrev pub is_atomic : Option Bytes → Service → Bool
is_atomic none s = s.engine_checked && s.engine_ok
is_atomic (some engine) s = if s.engine_checked then s.engine_ok else (engine == bytes "Atomic")

check_engine_lem :
    (o : Option Bytes) (s : Service)
    → let s' = check_engine o s in
      ((s'.engine_checked && s'.engine_ok) ≡ is_atomic o s) × (s'.counts ≡ s.counts)
unfolding check_engine
check_engine_lem none s = (refl, refl)
check_engine_lem (some engine) s =
    if-cases
      (λ (s' : Service).
        ((s'.engine_checked && s'.engine_ok) ≡ is_atomic (some engine) s) × (s'.counts ≡ s.counts))
      s.engine_checked (λ h. (rw h refl, refl)) (λ h. (rw h refl, refl))

swap_followers_lem :
    (ch : Statements) (fresh : List (Bytes × ℕ)) (s : Service)
    → let r = swap_followers ch fresh s in
      (r.0 ≡ (ch.truncates && (ch.builds && ch.exchanges)))
      × (r.1.counts ≡ (if r.0 then fresh else s.counts))
unfolding swap_followers
swap_followers_lem ch fresh s =
    let P : Bool × Service → Type 0 = λ r.
      (r.0 ≡ (ch.truncates && (ch.builds && ch.exchanges)))
      × (r.1.counts ≡ (if r.0 then fresh else s.counts)) in
    if-cases P (not ch.truncates) (λ a. (ground arith, refl))
      (λ a.
        if-cases P (not ch.builds) (λ b. (ground arith, refl))
          (λ b.
            if-cases P (not ch.exchanges) (λ c. (ground arith, refl)) (λ c. (ground arith, refl))))

total_refreshed :
    (ch : Statements) (dead : Bytes → Bool) (rows : List Row) (s : Service) (pk : Bytes)
    → let r = refresh_followers ch dead rows s in
      (r.0 ≡ (is_atomic ch.engine s && (ch.truncates && (ch.builds && ch.exchanges))))
      × (total pk r.1.counts
          ≡ (if r.0 then length (ids_of pk (follower_pairs dead rows)) else total pk s.counts))
unfolding refresh_followers
total_refreshed ch dead rows s pk =
    let c = check_engine_lem ch.engine s in
    let s' = check_engine ch.engine s in
    let fresh = grouped (follower_pairs dead rows) in
    let w = swap_followers_lem ch fresh s' in
    if-cases
      (λ (r : Bool × Service).
        (r.0 ≡ (is_atomic ch.engine s && (ch.truncates && (ch.builds && ch.exchanges))))
        × (total pk r.1.counts
            ≡ (if r.0 then length (ids_of pk (follower_pairs dead rows)) else total pk s.counts)))
      (s'.engine_checked && s'.engine_ok)
      (λ h.
        (ground (arith, c, w), ap (total pk) w.1 ∙ by_result (swap_followers ch fresh s').0 c.1))
      (λ h. (ground (arith, c), ap (total pk) c.1))
  where
    by_result :
        (b : Bool)
        → (check_engine ch.engine s).counts ≡ s.counts
        → total pk
            (if b then grouped (follower_pairs dead rows) else (check_engine ch.engine s).counts)
          ≡ (if b then length (ids_of pk (follower_pairs dead rows)) else total pk s.counts)
    by_result true e = total-grouped pk (follower_pairs dead rows)
    by_result false e = ap (total pk) e

-- A refresh succeeds exactly if the database is known to be Atomic and its three statements succeed.
-- Then each pubkey has as many followers as there are different authors whose newest contact list, of
-- those that are not tombstoned, names it in a p-tag; every author of such a list counts. In every
-- other case the served counts are those of before.
pub total-refresh_followers :
    (ch : Statements) (dead : Bytes → Bool) (rows : List Row) (s : Service) (pk : Bytes)
    → let r = refresh_followers ch dead rows s in
      (selected : List Row) × AreWinners dead rows selected
      × (r.0 ≡ (is_atomic ch.engine s && (ch.truncates && (ch.builds && ch.exchanges))))
      × (total pk r.1.counts
          ≡ (if r.0 then length (authors_naming pk selected) else total pk s.counts))
unfolding follower_pairs
total-refresh_followers ch dead rows s pk =
    let (ok, served) = total_refreshed ch dead rows s pk in
    let selected = first_by_pubkey [] (sort_by newer (contact_lists dead rows)) in
    let r = refresh_followers ch dead rows s in
    (
      selected,
      selected-AreWinners dead rows,
      ok,
      served
          ∙ ap (λ (l : List Bytes). if r.0 then length l else total pk s.counts)
              (ids_of-follows pk selected),
    )
