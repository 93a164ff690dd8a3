-- ===== src/Policy/Access.antt =====
-- internal/policy/auth.go: the allow-list and its cache, over the table of internal/control. A
-- call of Refresh, AllowPubkey or RevokePubkey is a statement in the database and, later, a section
-- under the lock of the cache; a `Bool` is whether the statement succeeds.
pub mod InSync
use archive_relay.Prelude.{
  ℕ, zero, suc, Bool, true, false, not, Option, none, some, List, [], ◌∷◌, ◌++◌, map, Bytes, bytes,
  bytes_eq, eq_bytes, contains, insert, delete, ◌==◌, if◌then◌else◌,
}
use archive_relay.Control.{
  Db, AllowedPubkey, allow_pubkey, revoke_pubkey, list_allowed, load_allowed_set,
}

pub record Access : Type 0 where
  pub enabled : Bool
  pub admin : List Bytes
  pub static : List Bytes
  pub allowed : List Bytes

unfoldable pub to_set : List Bytes → List Bytes
to_set [] = []
to_set (x ∷ xs) = let rest = to_set xs in if x == [] then rest else insert x rest

unfoldable pub add_all : List Bytes → List Bytes → List Bytes
add_all [] uni = uni
add_all (k ∷ ks) uni = add_all ks (insert k uni)

unfoldable pub rebuild : List Bytes → Access → Access
rebuild dynamic a = record a { allowed = add_all dynamic (add_all a.static []) }

-- `none` when the allow-list cannot be loaded.
unfoldable pub primed : Option (List Bytes) → Access → Option Access
primed none a = none
primed (some dyn) a = some (rebuild dyn a)

unfoldable pub new_access : Bool → List Bytes → List Bytes → Bool → Db → Option Access
new_access enabled allow admin ok db =
    primed (load_allowed_set ok db)
      (record { enabled = enabled; admin = to_set admin; static = to_set allow; allowed = [] })

abbrev pub is_allowed : Access → Bytes → Bool
is_allowed a pk = contains pk a.allowed

abbrev pub is_admin : Access → Bytes → Bool
is_admin a pk = contains pk a.admin

pub data Rejection : Type 0 where
  auth_required restricted : Rejection

-- `has_connection` is whether khatru.GetConnection is not nil, `pk` is khatru.GetAuthed.
unfoldable pub gate : Access → Bool → Bytes → Option Rejection
gate a has_connection pk =
    if not a.enabled
    then none
    else if not has_connection
    then none
    else if pk == []
    then some auth_required
    else if not (is_allowed a pk)
    then some restricted
    else none

-- The RejectAPICall hook: true is a rejection.
unfoldable pub admin_gate : Access → Bytes → Bool
admin_gate a pk = not (is_admin a pk)

-- What a call has left to do to the cache, under the lock, after its statement in the database.
pub data Pending : Type 0 where
  nothing : Pending
  rebuilds : List Bytes → Pending
  grants drops : Bytes → Pending

abbrev pub when_loaded : Option (List Bytes) → Pending
when_loaded none = nothing
when_loaded (some dyn) = rebuilds dyn

-- The NIP-86 calls and the periodic refresh, up to the lock. The `Bool` is whether the statement succeeds.
pub data Management : Type 0 where
  allows : Bool → ℕ → Bytes → Bytes → Management
  revokes : Bool → Bytes → Management
  refreshes : Bool → Management

unfoldable pub begin : Management → Db → Pending × Db
begin (allows ok now pk note) db =
    let (stored, db') = allow_pubkey ok now pk note db in
    (if stored then grants pk else nothing, db')
begin (revokes ok pk) db =
    let (stored, db') = revoke_pubkey ok pk db in (if stored then drops pk else nothing, db')
begin (refreshes ok) db = (when_loaded (load_allowed_set ok db), db)

-- The section under the lock.
unfoldable pub finish_call : Pending → Access → Access
finish_call nothing a = a
finish_call (rebuilds dyn) a = rebuild dyn a
finish_call (grants pk) a = record a { allowed = insert pk a.allowed }
finish_call (drops pk) a =
    if contains pk a.static then a else record a { allowed = delete pk a.allowed }

-- The cache and the table, with the calls that are between the two, the last begun first.
pub record Shared : Type 0 where
  pub access : Access
  pub db : Db
  pub pending : List Pending

-- A call begins, or one of those between finishes.
pub data Step : Type 0 where
  begins : Management → Step
  finishes : ℕ → Step

unfoldable pub pick : ℕ → List Pending → Pending × List Pending
pick n [] = (nothing, [])
pick zero (p ∷ ps) = (p, ps)
pick (suc n) (p ∷ ps) = let (q, rest) = pick n ps in (q, p ∷ rest)

unfoldable pub step : Step → Shared → Shared
step (begins m) s = let (p, db') = begin m s.db in record s { db = db'; pending = p ∷ s.pending }
step (finishes n) s =
    let (p, rest) = pick n s.pending in record s { access = finish_call p s.access; pending = rest }

unfoldable pub run : List Step → Shared → Shared
run [] s = s
run (m ∷ ms) s = run ms (step m s)

pub record PubKeyReason : Type 0 where
  pub pub_key : Bytes
  pub reason : Bytes

abbrev from_row : Bytes × AllowedPubkey → PubKeyReason
from_row row = record { pub_key = row.0; reason = row.1.note }

abbrev from_config : Bytes → PubKeyReason
from_config pk = record { pub_key = pk; reason = bytes "config" }

-- The static keys come in the order of the set, where Go's is that of a map.
unfoldable pub list_rows :
    Option (List (Bytes × AllowedPubkey)) → Access → Option (List PubKeyReason)
list_rows none a = none
list_rows (some rows) a = some (map from_row rows ++ map from_config a.static)

unfoldable pub list_allowed_pubkeys : Bool → Access → Db → Option (List PubKeyReason)
list_allowed_pubkeys ok a db = list_rows (list_allowed ok db) a
