-- ===== src/Priority.antt =====
-- internal/crawler/priority.go: the pubkeys of a tick go from relay to relay until one of them serves
-- them to a clean EOSE. What a relay does in a tick is given; times are seconds.
pub mod Failover
mod Tests
use archive_relay.Prelude.{
  ℕ, zero, suc, ◌+◌, ◌-◌, ◌*◌, Bool, true, false, ◌||◌, Option, none, some, List, [], ◌∷◌, Bytes,
  leb, nat_eq, if◌then◌else◌,
}
use archive_relay.Control.{Db, last_fetched, last_swept, mark_fetched, mark_swept}

abbrev pub fetch_overlap : ℕ
fetch_overlap = 2 * 3600

abbrev pub full_sweep_age : ℕ
full_sweep_age = 24 * 3600

pub record PubkeyJob : Type 0 where
  pub pubkey : Bytes
  pub since : Option ℕ
  pub full_sweep : Bool

-- `none` is a failed lookup of crawl_state.
unfoldable pub is_full_sweep : ℕ → Option ℕ → Option ℕ → Bool
is_full_sweep now none swept = true
is_full_sweep now (some last) none = true
is_full_sweep now (some last) (some swept) = nat_eq last 0 || leb (swept + full_sweep_age) now

abbrev pub overlapped : Option ℕ → Option ℕ
overlapped none = none
overlapped (some last) = let ts = last - fetch_overlap in if nat_eq ts 0 then none else some ts

unfoldable pub decide_since : ℕ → Bytes → Option ℕ → Option ℕ → PubkeyJob
decide_since now pubkey last swept =
    if is_full_sweep now last swept
    then record { pubkey = pubkey; since = none; full_sweep = true }
    else record { pubkey = pubkey; since = overlapped last; full_sweep = false }

-- `reads` is whether the statements on crawl_state succeed.
unfoldable pub decide_all : ℕ → (Bytes → Bool) → Db → List Bytes → List PubkeyJob
decide_all now reads db [] = []
decide_all now reads db (pk ∷ pubkeys) =
    decide_since now pk (last_fetched (reads pk) pk db) (last_swept (reads pk) pk db)
    ∷ decide_all now reads db pubkeys

-- A relay in a tick: whether Connect succeeds, whether fetchOn ends with a clean EOSE, and how many
-- pubkeys are asked for before the context is done.
pub record Upstream : Type 0 where
  pub connects : Bool
  pub serves : PubkeyJob → Bool
  pub budget : ℕ

-- The errors of MarkFetched and MarkSwept are ignored.
unfoldable pub mark_done : Bool → ℕ → PubkeyJob → Db → Db
mark_done writes now job db =
    let db' = (mark_fetched writes now job.pubkey db).1 in
    if job.full_sweep then (mark_swept writes now job.pubkey db').1 else db'

unfoldable pub fetch_jobs :
    (PubkeyJob → Bool) → Bool → ℕ → ℕ → List PubkeyJob → Db → List PubkeyJob × Db
fetch_jobs serves writes now zero jobs db = (jobs, db)
fetch_jobs serves writes now (suc budget) [] db = ([], db)
fetch_jobs serves writes now (suc budget) (job ∷ jobs) db =
    let r =
      fetch_jobs serves writes now budget jobs
        (if serves job then mark_done writes now job db else db) in
    if serves job then r else (job ∷ r.0, r.1)

unfoldable pub fetch_relay : Bool → ℕ → Upstream → List PubkeyJob → Db → List PubkeyJob × Db
fetch_relay writes now relay remaining db =
    if relay.connects
    then fetch_jobs relay.serves writes now relay.budget remaining db
    else (remaining, db)

unfoldable pub visit : Bool → ℕ → List Upstream → List PubkeyJob → Db → List PubkeyJob × Db
visit writes now [] remaining db = (remaining, db)
visit writes now (relay ∷ relays) [] db = ([], db)
visit writes now (relay ∷ relays) (job ∷ jobs) db =
    let (remaining, db') = fetch_relay writes now relay (job ∷ jobs) db in
    visit writes now relays remaining db'

unfoldable pub tick :
    ℕ → (Bytes → Bool) → Bool → List Upstream → List Bytes → Db → List PubkeyJob × Db
tick now reads writes relays pubkeys db =
    visit writes now relays (decide_all now reads db pubkeys) db
