-- ===== src/Priority/Tests.antt =====
-- internal/crawler/priority.go with one relay that is down and one that serves one of two pubkeys.
use archive_relay.Prelude.{
  ◌≤◌, ◌≡◌, true, false, some, List, [], ◌∷◌, Bytes, bytes, eq_bytes, ◌==◌, if◌then◌else◌, arith,
}
use archive_relay.Control.{empty_db, last_fetched, last_swept}
use archive_relay.Priority.{Upstream, decide_all, tick}
use archive_relay.Priority.Failover.{unserved, fetched, swept, tick_lem}

abbrev alice : Bytes
alice = bytes "alice"

abbrev bob : Bytes
bob = bytes "bob"

abbrev two_relays : List Upstream
two_relays =
    record { connects = false; serves = λ job. true; budget = 2 }
    ∷ record { connects = true; serves = λ job. job.pubkey == alice; budget = 2 }
    ∷ []

tick_lem_example :
    let jobs = decide_all 50000 (λ pk. true) empty_db (alice ∷ bob ∷ []) in
    let r = tick 50000 (λ pk. true) true two_relays (alice ∷ bob ∷ []) empty_db in
    (r.0 ≡ unserved two_relays jobs)
    × (last_fetched true alice r.1
        ≡ (if fetched two_relays alice jobs then some 50000 else last_fetched true alice empty_db))
    × (last_swept true alice r.1
        ≡ (if swept two_relays alice jobs then some 50000 else last_swept true alice empty_db))
unfolding decide_all
tick_lem_example =
    tick_lem 50000 (λ pk. true) two_relays (alice ∷ bob ∷ []) empty_db alice (two, (two, tt))
  where
    two : 2 ≤ 2
    two = omega arith
