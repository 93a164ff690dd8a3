-- ===== src/Tombstones.antt =====
-- internal/store/tombstone.go: the tombstone writer as a state machine. Its goroutine is one step for
-- each case of its select, a push of retire is a step between them, and any list of actions is an
-- interleaving. `sends i` is whether the i-th insert of a flush succeeds, `Reload` what ClickHouse
-- does with the reload of the dictionary. `accepted` is bookkeeping for the theorems: the requests
-- that retire pushed, in order.
pub mod Conserve
mod Tests
use archive_relay.Prelude.{
  ℕ, zero, suc, ◌+◌, ◌*◌, Bool, true, false, not, ◌&&◌, List, [], ◌∷◌, ◌++◌, Bytes, length, take,
  drop, ltb, leb, nat_eq, min, if◌then◌else◌,
}

pub record TombstoneReq : Type 0 where
  pub id : Bytes
  pub reason : Bytes
  pub deleted_by : Bytes

pub record TombstoneWriter : Type 0 where
  pub inq : List TombstoneReq  -- the channel `in`
  pub stop_closed : Bool
  pub done : Bool
  pub last_reload : ℕ  -- in milliseconds
  pub buf : List TombstoneReq
  pub dirty : Bool
  pub probe_id : Bytes
  pub retrying : Bool
  pub dropped : ℕ
  pub reported : ℕ  -- the drops that reportDrops has logged
  pub lost : ℕ  -- as logged at the shutdown
  pub inserted : List TombstoneReq
  pub accepted : List TombstoneReq

abbrev pub batch_max : ℕ
batch_max = 1000

abbrev pub retained_max : ℕ
retained_max = 3 * batch_max

abbrev pub in_cap : ℕ
in_cap = 4096

abbrev pub reload_every : ℕ
reload_every = 2000

unfoldable pub new_tombstone_writer : TombstoneWriter
new_tombstone_writer = record {
  inq = [];
  stop_closed = false;
  done = false;
  last_reload = 0;
  buf = [];
  dirty = false;
  probe_id = [];
  retrying = false;
  dropped = 0;
  reported = 0;
  lost = 0;
  inserted = [];
  accepted = [];
}

-- One push of retire; false is errTombstoneWriterStopped, or errTombstoneWriterFull while the
-- channel stays full.
unfoldable pub push : TombstoneReq → TombstoneWriter → Bool × TombstoneWriter
push req w =
    if w.stop_closed
    then (false, w)
    else if ltb (length w.inq) in_cap
    then (true, record w { inq = w.inq ++ req ∷ []; accepted = w.accepted ++ req ∷ [] })
    else (false, w)

-- retire, when no other step comes between its pushes.
unfoldable pub retire : List Bytes → Bytes → Bytes → TombstoneWriter → Bool × TombstoneWriter
retire [] reason deleted_by w = (not w.stop_closed, w)
retire (id ∷ ids) reason deleted_by w =
    let r = push (record { id = id; reason = reason; deleted_by = deleted_by }) w in
    let rest = retire ids reason deleted_by r.1 in if r.0 then rest else r

unfoldable pub report_drops : TombstoneWriter → TombstoneWriter
report_drops w = record w { reported = w.reported + w.dropped; dropped = 0 }

unfoldable pub append_req : TombstoneReq → TombstoneWriter → TombstoneWriter
append_req req w =
    if nat_eq (length w.buf) retained_max
    then record w { dropped = w.dropped + 1 }
    else record w { buf = w.buf ++ req ∷ [] }

abbrev pub last_id : List TombstoneReq → Bytes → Bytes
last_id [] probe = probe
last_id (req ∷ reqs) probe = last_id reqs req.id

abbrev pub chunk : TombstoneWriter → ℕ
chunk w = min (length w.buf) batch_max

unfoldable pub inserted_one : TombstoneWriter → TombstoneWriter
inserted_one w = record w {
  probe_id = last_id (take (chunk w) w.buf) w.probe_id;
  dirty = true;
  inserted = w.inserted ++ take (chunk w) w.buf;
  buf = drop (chunk w) w.buf;
}

-- Each round takes at least one request, so the length of the buffer and one more is enough.
unfoldable pub flush_loop : (ℕ → Bool) → ℕ → ℕ → TombstoneWriter → TombstoneWriter
flush_loop sends zero i w = w
flush_loop sends (suc fuel) i w =
    let next = flush_loop sends fuel (i + 1) (inserted_one w) in
    if nat_eq (length w.buf) 0
    then record w { retrying = false }
    else if sends i
    then next
    else record w { retrying = true }

unfoldable pub flush : (ℕ → Bool) → TombstoneWriter → TombstoneWriter
flush sends w = flush_loop sends (length w.buf + 1) 0 (report_drops w)

pub record Reload : Type 0 where
  pub now : ℕ
  pub execs : Bool
  pub probes : Bool
  pub found : Bool

unfoldable pub reload : Reload → TombstoneWriter → Bool × TombstoneWriter
reload r w = (r.execs && (r.probes && r.found), record w { last_reload = r.now })

unfoldable pub receive_req : (ℕ → Bool) → List TombstoneReq → TombstoneWriter → TombstoneWriter
receive_req sends [] w = w
receive_req sends (req ∷ rest) w =
    let w' = append_req req (record w { inq = rest }) in
    if leb batch_max (length w'.buf) && not w'.retrying then flush sends w' else w'

-- The end of each round: the reload, at most one in two seconds. `now` is after lastReload.
unfoldable pub reload_due : Reload → TombstoneWriter → TombstoneWriter
reload_due r w =
    if w.dirty && leb (w.last_reload + reload_every) r.now
    then record (reload r w).1 { dirty = not (reload r w).0 }
    else w

-- The drain at the shutdown, on as much fuel as the channel holds requests. A send that commits in
-- the grace period is in the channel already.
unfoldable pub drain : (ℕ → ℕ → Bool) → ℕ → TombstoneWriter → TombstoneWriter
drain sends zero w = w
drain sends (suc fuel) w = drain sends fuel (receive_req (sends (suc fuel)) w.inq w)

unfoldable pub finish : (ℕ → Bool) → Reload → TombstoneWriter → TombstoneWriter
finish sends r w =
    let w' = flush sends w in
    let w'' = record w' { lost = length w'.buf; done = true } in
    if w'.dirty then (reload r w'').1 else w''

unfoldable pub shut_down : (ℕ → ℕ → Bool) → Reload → TombstoneWriter → TombstoneWriter
shut_down sends r w = finish (sends 0) r (drain sends (length w.inq) w)

pub data Action : Type 0 where
  pushes : TombstoneReq → Action
  receives : (ℕ → Bool) → Reload → Action
  ticks : (ℕ → Bool) → Reload → Action
  closes_stop : Action
  stops : (ℕ → ℕ → Bool) → Reload → Action

unfoldable pub work : Action → TombstoneWriter → TombstoneWriter
work (receives sends r) w = reload_due r (receive_req sends w.inq w)
work (ticks sends r) w = reload_due r (flush sends w)
work (stops sends r) w = if w.stop_closed then shut_down sends r w else w
work action w = w

unfoldable pub step : Action → TombstoneWriter → TombstoneWriter
step (pushes req) w = (push req w).1
step closes_stop w = record w { stop_closed = true }
step action w = if w.done then w else work action w

unfoldable pub run : List Action → TombstoneWriter → TombstoneWriter
run [] w = w
run (a ∷ rest) w = run rest (step a w)
