-- ===== src/Fetch.antt =====
-- internal/crawler/priority.go: fetchOn, one subscription for one pubkey on a relay that is connected.
-- `subscribes` is whether Subscribe succeeds; then come the receives of its select in their order, each
-- event with the time of its ingestion. No further receive means that the context is done.
pub mod Taken
mod Tests
use archive_relay.Prelude.{ℕ, ◌+◌, Bool, true, false, List, [], ◌∷◌, if◌then◌else◌}
use archive_relay.Nostr.{Event}
use archive_relay.Dedup.{Dedup}
use archive_relay.Ingest.{Saved, Ingested, ingest_step}

pub data Receive : Type 0 where
  received : ℕ → Event → Receive
  context_done end_of_stored closed_reason events_closed : Receive

-- The result, with the counts that fetchOn logs.
pub record Fetched (S : Type 0) : Type 0 where
  pub clean : Bool
  pub store : S
  pub dedup : Dedup
  pub ingested : ℕ
  pub skipped : ℕ

abbrev pub ended : {S : Type 0} → Bool → S → Dedup → ℕ → ℕ → Fetched S
ended clean s d i k = record { clean = clean; store = s; dedup = d; ingested = i; skipped = k }

module _ {S : Type 0} (cap : ℕ) (save : Event → S → Saved × S) (verify : Event → Bool × Bool) where
  unfoldable pub receive_all : List Receive → S → Dedup → ℕ → ℕ → Fetched S
  receive_all [] s d i k = ended false s d i k
  receive_all (context_done ∷ rs) s d i k = ended false s d i k
  receive_all (end_of_stored ∷ rs) s d i k = ended true s d i k
  receive_all (closed_reason ∷ rs) s d i k = ended false s d i k
  receive_all (events_closed ∷ rs) s d i k = ended false s d i k
  receive_all (received now ev ∷ rs) s d ingested skipped =
      let r = ingest_step cap now save verify ev s d in
      receive_all rs r.store r.dedup (if r.stored then ingested + 1 else ingested)
        (if r.stored then skipped else skipped + 1)

  unfoldable pub fetch_on : Bool → List Receive → S → Dedup → Fetched S
  fetch_on subscribes rs s d = if subscribes then receive_all rs s d 0 0 else ended false s d 0 0
