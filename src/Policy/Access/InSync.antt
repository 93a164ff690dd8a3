-- ===== src/Policy/Access/InSync.antt =====
-- internal/policy/auth.go: the cached allow-set beside the static keys and the rows.
use archive_relay.Prelude.{
  ℕ, ◌≡◌, refl, subst, Bool, true, false, not, ◌&&◌, ◌||◌, Option, none, some, List, [], ◌∷◌, map,
  Bytes, eq_bytes, contains, insert, contains-nil, contains-insert, contains-delete, lookup,
  lookup-put, lookup-erase, ◌==◌, ==_iff, if-cases, arith,
}
use mathlib.Core.Option.{some-injective}
use archive_relay.Control.{Db, AllowedPubkey, allow_pubkey, revoke_pubkey, load_allowed_set}
use archive_relay.Policy.Access.{
  Access, to_set, add_all, rebuild, primed, new_access, is_allowed, gate, Rejection, Management,
  allows, revokes, refreshes, begin, finish_call, Shared, Step, begins, finishes, pick, step, run,
}

abbrev pub is_row : Option AllowedPubkey → Bool
is_row none = false
is_row (some row) = true

abbrev pub granted : Bytes → Db → Bool
granted pk db = is_row (lookup pk db.allowed_pubkeys)

abbrev pub InSync : Access → Db → Type 0
InSync a db = (pk : Bytes) → is_allowed a pk ≡ (contains pk a.static || granted pk db)

contains-add_all :
    (ks uni : List Bytes) (pk : Bytes)
    → contains pk (add_all ks uni) ≡ (contains pk ks || contains pk uni)
unfolding add_all contains
contains-add_all [] uni pk = refl
contains-add_all (k ∷ ks) uni pk =
    ground (arith, contains-add_all ks (insert k uni) pk, contains-insert k pk uni)

contains-map :
    (rows : List (Bytes × AllowedPubkey)) (pk : Bytes)
    → contains pk (map (λ (row : Bytes × AllowedPubkey). row.0) rows) ≡ is_row (lookup pk rows)
unfolding contains lookup
contains-map [] pk = refl
contains-map ((k, row) ∷ rows) pk =
    if-cases
      (λ o. (k == pk || contains pk (map (λ (r : Bytes × AllowedPubkey). r.0) rows)) ≡ is_row o)
      (k == pk) (λ h. ground arith) (λ h. ground (arith, contains-map rows pk))

rebuild-InSync :
    (a : Access) (db : Db)
    → InSync (rebuild (map (λ (row : Bytes × AllowedPubkey). row.0) db.allowed_pubkeys) a) db
unfolding rebuild
rebuild-InSync a db pk = ground (
  arith,
  contains-add_all (map (λ (row : Bytes × AllowedPubkey). row.0) db.allowed_pubkeys)
      (add_all a.static []) pk,
  contains-add_all a.static [] pk,
  contains-nil pk,
  contains-map db.allowed_pubkeys pk,
)

granted-put :
    (now : ℕ) (pk note q : Bytes) (db : Db)
    → granted q (allow_pubkey true now pk note db).1 ≡ (pk == q || granted q db)
unfolding allow_pubkey
granted-put now pk note q db =
    rw (lookup-put pk q (record { note = note; created_at = now }) db.allowed_pubkeys) (
      if-cases (λ o. is_row o ≡ (pk == q || granted q db)) (pk == q) (λ h. ground arith)
        (λ h. ground arith))

granted-erase :
    (pk q : Bytes) (db : Db)
    → granted q (revoke_pubkey true pk db).1 ≡ (not (pk == q) && granted q db)
unfolding revoke_pubkey
granted-erase pk q db = rw (lookup-erase pk q db.allowed_pubkeys) (
    if-cases (λ o. is_row o ≡ (not (pk == q) && granted q db)) (pk == q) (λ h. ground arith)
      (λ h. ground arith))

-- A call of which nothing comes between its statement and its section under the lock.
begin-InSync :
    (m : Management) (a : Access) (db : Db)
    → InSync a db
    → InSync (finish_call (begin m db).0 a) (begin m db).1
unfolding begin finish_call load_allowed_set allow_pubkey revoke_pubkey
begin-InSync (allows false now pk note) a db s = s
begin-InSync (allows true now pk note) a db s =
    λ q. ground (arith, s q, contains-insert pk q a.allowed, granted-put now pk note q db)
begin-InSync (revokes false pk) a db s = s
begin-InSync (revokes true pk) a db s =
    if-cases (λ (a' : Access). InSync a' (revoke_pubkey true pk db).1) (contains pk a.static)
      (λ h q. ground (arith, s q, granted-erase pk q db, ==_iff pk q))
      (λ h q.
        ground (arith, s q, contains-delete pk q a.allowed, granted-erase pk q db, ==_iff pk q))
begin-InSync (refreshes false) a db s = s
begin-InSync (refreshes true) a db s = rebuild-InSync a db

-- Calls of which none begins before the one before it has finished.
abbrev pub in_turn : List Management → List Step
in_turn [] = []
in_turn (m ∷ ms) = begins m ∷ finishes 0 ∷ in_turn ms

in_turn-InSync :
    (ms : List Management) (s : Shared)
    → InSync s.access s.db
    → InSync (run (in_turn ms) s).access (run (in_turn ms) s).db
unfolding run step pick
in_turn-InSync [] s i = i
in_turn-InSync (m ∷ ms) s i =
    in_turn-InSync ms
      (record {
        access = finish_call (begin m s.db).0 s.access;
        db = (begin m s.db).1;
        pending = s.pending;
      })
      (begin-InSync m s.access s.db i)

-- A refresh on its own is in sync with the table, whatever went before.
refreshed-InSync :
    (ms : List Management) (s : Shared)
    → let s' = run (in_turn (refreshes true ∷ ms)) s in InSync s'.access s'.db
unfolding run step pick
refreshed-InSync ms s =
    in_turn-InSync ms
      (record {
        access = finish_call (begin (refreshes true) s.db).0 s.access;
        db = (begin (refreshes true) s.db).1;
        pending = s.pending;
      })
      (unfold begin finish_call load_allowed_set in rebuild-InSync s.access s.db)

primed-InSync :
    (ok : Bool) (a a' : Access) (db : Db)
    → primed (load_allowed_set ok db) a ≡ some a'
    → InSync a' db
unfolding primed load_allowed_set
primed-InSync false a a' db e = absurd (cc e)
primed-InSync true a a' db e =
    let dyn = map (λ (row : Bytes × AllowedPubkey). row.0) db.allowed_pubkeys in
    subst (λ (x : Access). InSync x db) (some-injective (rebuild dyn a) a' e) (rebuild-InSync a db)

abbrev pub is_none : Option Rejection → Bool
is_none none = true
is_none (some r) = false

-- A connected client with this key is let through exactly if the gate is off, or the client has
-- authenticated and its key is static or has a row in the table.
abbrev pub IsExact : Bytes → Shared → Type 0
IsExact pk s =
    is_none (gate s.access true pk)
    ≡ (not s.access.enabled || (not (pk == []) && (contains pk s.access.static || granted pk s.db)))

InSync-IsExact : (pk : Bytes) (s : Shared) → InSync s.access s.db → IsExact pk s
unfolding gate
InSync-IsExact pk s i = ground (arith, i pk)

abbrev pub at_start : Access → Db → Shared
at_start a db = record { access = a; db = db; pending = [] }

pub gate-run :
    (enabled ok : Bool) (allow admin : List Bytes) (db : Db) (a : Access) (before : List Step)
    (ms : List Management) (pk : Bytes)
    → new_access enabled allow admin ok db ≡ some a
    → IsExact pk (run (in_turn ms) (at_start a db))
      × IsExact pk (run (in_turn (refreshes true ∷ ms)) (run before (at_start a db)))
unfolding new_access
gate-run enabled ok allow admin db a before ms pk e =
    let start : Access = record {
      enabled = enabled;
      admin = to_set admin;
      static = to_set allow;
      allowed = [];
    } in
    (
      InSync-IsExact pk (run (in_turn ms) (at_start a db))
          (in_turn-InSync ms (at_start a db) (primed-InSync ok start a db e)),
      InSync-IsExact pk (run (in_turn (refreshes true ∷ ms)) (run before (at_start a db)))
          (refreshed-InSync ms (run before (at_start a db))),
    )

pub new_access-fields :
    (enabled ok : Bool) (allow admin : List Bytes) (db : Db) (a : Access)
    → new_access enabled allow admin ok db ≡ some a
    → (a.enabled ≡ enabled) × (a.static ≡ to_set allow)
unfolding new_access primed load_allowed_set
new_access-fields enabled false allow admin db a e = absurd (cc e)
new_access-fields enabled true allow admin db a e =
    let start : Access = record {
      enabled = enabled;
      admin = to_set admin;
      static = to_set allow;
      allowed = [];
    } in
    let dyn = map (λ (row : Bytes × AllowedPubkey). row.0) db.allowed_pubkeys in
    subst (λ (x : Access). (x.enabled ≡ enabled) × (x.static ≡ to_set allow))
      (some-injective (rebuild dyn start) a e) (unfold rebuild in (refl, refl))

pub contains-to_set :
    (pk : Bytes) (keys : List Bytes)
    → (pk == []) ≡ false
    → contains pk (to_set keys) ≡ contains pk keys
unfolding to_set contains
contains-to_set pk [] h = refl
contains-to_set pk (k ∷ ks) h = ground (
  arith,
  h,
  contains-to_set pk ks h,
  contains-insert k pk (to_set ks),
  ==_iff k pk,
  ==_iff k [],
  ==_iff pk [],
)
