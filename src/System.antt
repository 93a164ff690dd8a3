-- ===== src/System.antt =====
-- The store as internal/store/store.go wires it: a batcher for each tier and the tombstone writer do
-- what the writes call. A batcher is kept as the list of the actions that made it from a new one, so
-- every state here is one that it can reach.
pub mod Wired
pub mod Ingesting
mod Tests
use archive_relay.Prelude.{
  ℕ, ◌+◌, ◌≡◌, Bool, true, false, ◌&&◌, Option, List, [], ◌∷◌, ◌++◌, map, Memᴰ, Bytes, length,
  nat_eq, ◌==◌, if◌then◌else◌,
}
use archive_relay.Nostr.{Event}
use archive_relay.Classifier.{Tier, permanent, eq_tier}
use archive_relay.Batcher
use archive_relay.Batcher.{Batcher, new_batcher, Reply, Answer, enqueues, requests}
use archive_relay.Tombstones.{TombstoneWriter, TombstoneReq, retire, new_tombstone_writer}
use archive_relay.Store.{Version}

pub record System : Type 0 where
  pub history : Tier → List Batcher.Action
  pub tombstones : TombstoneWriter
  pub calls : ℕ  -- the calls of FlushAll so far

unfoldable pub new_system : System
new_system = record { history = λ t. []; tombstones = new_tombstone_writer; calls = 0 }

-- What the other goroutines do while a call of FlushAll waits for its answer, in each tier, and
-- whether the call heeds the answer: if not, its timer or the stop comes first.
pub record Turn : Type 0 where
  pub moves : Tier → List Batcher.Action
  pub heeds : Bool

-- The answer on the reply channel of this call.
abbrev pub is_reply : Reply → Reply → Bool
is_reply r r' = nat_eq r.caller r'.caller && nat_eq r.asked r'.asked

abbrev pub answered : Reply → List Answer → Bool
answered r [] = false
answered r (a ∷ answers) =
    let rest = answered r answers in if a.flushed && is_reply a.reply r then true else rest

module _ (max_size : ℕ) where
  unfoldable pub batcher_of : Tier → System → Batcher
  batcher_of t s = Batcher.run (s.history t) (new_batcher max_size true)

  abbrev pub act : (Tier → List Batcher.Action) → System → System
  act moves s = record s { history = λ t. s.history t ++ moves t }

  abbrev pub only : Tier → List Batcher.Action → Tier → List Batcher.Action
  only t moves u = if t == u then moves else []

  -- s.tiers[t].enqueue
  unfoldable pub enqueue_tier : Tier → Event → System → Bool × System
  enqueue_tier t evt s =
      ((Batcher.enqueue evt (batcher_of t s)).0, act (only t (enqueues evt ∷ [])) s)

  -- s.tiers[t].FlushAll
  unfoldable pub flush_tier : (Tier → System → Turn) → Tier → System → Bool × System
  flush_tier turn t s =
      let b = batcher_of t s in
      let asked = act (only t (requests s.calls ∷ [])) s in
      let s' = record (act (turn t s).moves asked) { calls = s.calls + 1 } in
      let reply : Reply = record { caller = s.calls; asked = length b.accepted } in
      (
        (Batcher.request_flush s.calls b).0
            && ((turn t s).heeds && answered reply (batcher_of t s').answers),
        s',
      )

-- s.tw.retire
unfoldable pub retire_in : List Bytes → Bytes → Bytes → System → Bool × System
retire_in ids reason by s =
    let (ok, w) = retire ids reason by s.tombstones in (ok, record s { tombstones = w })

abbrev pub retired : TombstoneWriter → List Bytes
retired w = map (λ req. req.id) w.accepted
