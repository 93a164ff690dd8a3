-- ===== src/Batcher/Inserted.antt =====
-- internal/store/batcher.go: what a batcher has inserted stays inserted.
use archive_relay.Prelude.{
  ℕ, zero, suc, ◌+◌, ◌≡◌, refl, sym, ap, ◌∙◌, Bool, ◌&&◌, Option, none, some, List, [], ◌∷◌, ◌++◌,
  append-nil, append_assoc, length, take, ltb, leb, if-cases, if◌then◌else◌,
}
use archive_relay.Nostr.{Event}
use archive_relay.Batcher.{
  normal, retry, stopped, WorkerState, Reply, Conn, Batcher, capacity, flush_req_cap, enqueue,
  request_flush, reply_all, is_empty, stage, chunk_size, sent_one, sends_chunk, arm, rest_or_normal,
  next_snapshot, send_failed, attempt, receive, serve_flush, final_stage, final_loop, final_flush,
  retry_fires, Action, enqueues, requests, receives, ticks, serves, retries, closes_stop, stops,
  work, step, run,
}

-- The inserted events of `b` are the first of those of `b'`.
abbrev pub Grows : Batcher → Batcher → Type 0
Grows b b' = (more : List Event) × (b'.sent ≡ b.sent ++ more)

kept : {old new : List Event} → new ≡ old → (more : List Event) × (new ≡ old ++ more)
kept {old} h = ([], h ∙ sym (append-nil old))

Grows-trans : (a b c : Batcher) → Grows a b → Grows b c → Grows a c
Grows-trans a b c (m, e) (n, f) =
    (m ++ n, f ∙ ap (λ (l : List Event). l ++ n) e ∙ append_assoc a.sent m n)

rest_or_normal-Grows : (b : Batcher) → Grows b (rest_or_normal b)
unfolding rest_or_normal reply_all arm
rest_or_normal-Grows b = if-cases (Grows b) (is_empty b.pending) (λ _. kept refl) (λ _. kept refl)

next_snapshot-Grows : (b : Batcher) → Grows b (next_snapshot b)
unfolding next_snapshot stage
next_snapshot-Grows b =
    if-cases (Grows b) (is_empty b.pending && ltb 0 b.queued)
      (λ _. rest_or_normal-Grows (record (stage b.queued b) { queued = 0 }))
      (λ _. rest_or_normal-Grows b)

sent_one-Grows : (b : Batcher) → Grows b (sent_one b)
unfolding sent_one
sent_one-Grows b = (take (chunk_size b) b.pending, refl)

sent_next-Grows : (b : Batcher) → Grows b (next_snapshot (record (sent_one b) { fails = 0 }))
sent_next-Grows b =
    let c : Batcher = record (sent_one b) { fails = 0 } in
    Grows-trans b c (next_snapshot c) (sent_one-Grows b) (next_snapshot-Grows c)

attempt-Grows : (conn : Conn) (b : Batcher) → Grows b (attempt conn b)
unfolding attempt send_failed arm reply_all
attempt-Grows conn b =
    if-cases (Grows b) (is_empty b.pending) (λ _. next_snapshot-Grows b)
      (λ _. if-cases (Grows b) (sends_chunk conn b) (λ _. sent_next-Grows b) (λ _. kept refl))

receive-Grows : (conn : Conn) (q : List Event) (b : Batcher) → Grows b (receive conn q b)
unfolding receive stage
receive-Grows conn [] b = kept refl
receive-Grows conn (evt ∷ rest) b =
    let b' : Batcher = record b { inq = rest; buf = b.buf ++ evt ∷ [] } in
    if-cases (Grows b) (leb b.max_size (length (b.buf ++ evt ∷ [])))
      (λ _. attempt-Grows conn (stage (length rest) b')) (λ _. kept refl)

serve_flush-Grows : (conn : Conn) (rs : List Reply) (b : Batcher) → Grows b (serve_flush conn rs b)
unfolding serve_flush stage
serve_flush-Grows conn [] b = kept refl
serve_flush-Grows conn (r ∷ rest) b =
    let b' : Batcher = record b {
      flush_req = rest;
      replies = b.replies ++ r ∷ [];
      queued = length b.inq;
    } in
    if-cases (Grows b) (is_empty b.pending)
      (λ _. attempt-Grows conn (record (stage (length b.inq) b') { queued = 0 }))
      (λ _. attempt-Grows conn b')

final_loop-Grows :
    (conns : ℕ → Conn) (fuel i : ℕ) (b : Batcher) → Grows b (final_loop conns fuel i b)
unfolding final_loop final_stage stage reply_all
final_loop-Grows conns zero i b = kept refl
final_loop-Grows conns (suc fuel) i b =
    let b' = final_stage b in
    let staged : b'.sent ≡ b.sent =
      if-cases (λ (x : Batcher). x.sent ≡ b.sent) (is_empty b.pending) (λ _. refl) (λ _. refl) in
    if-cases (Grows b) (is_empty b'.pending) (λ _. kept staged)
      (λ _.
        if-cases (Grows b) (sends_chunk (conns i) b')
          (λ _.
            let last = final_loop conns fuel (i + 1) (sent_one b') in
            Grows-trans b b' last (kept staged) (
              Grows-trans b' (sent_one b') last (sent_one-Grows b')
                (final_loop-Grows conns fuel (i + 1) (sent_one b'))))
          (λ _. kept staged))

retry_fires-Grows :
    (conn : Conn) (delay : Option ℕ) (b : Batcher) → Grows b (retry_fires conn delay b)
unfolding retry_fires
retry_fires-Grows conn none b = kept refl
retry_fires-Grows conn (some delay) b = attempt-Grows conn b

stops-Grows :
    (conns : ℕ → Conn) (b : Batcher) → Grows b (if b.stop_closed then final_flush conns b else b)
unfolding final_flush
stops-Grows conns b =
    if-cases (Grows b) b.stop_closed
      (λ _. final_loop-Grows conns _ 0 (record b { state = stopped })) (λ _. kept refl)

work-Grows : (a : Action) (s : WorkerState) (b : Batcher) → Grows b (work a s b)
unfolding work stage
work-Grows (receives conn) normal b = receive-Grows conn b.inq b
work-Grows (ticks conn) normal b = attempt-Grows conn (stage (length b.inq) b)
work-Grows (serves conn) normal b = serve_flush-Grows conn b.flush_req b
work-Grows (serves conn) retry b = serve_flush-Grows conn b.flush_req b
work-Grows (retries conn) retry b = retry_fires-Grows conn b.retry_in b
work-Grows (stops conns) normal b = stops-Grows conns b
work-Grows (stops conns) retry b = stops-Grows conns b
work-Grows _ _ b = kept refl

step-Grows : (a : Action) (b : Batcher) → Grows b (step a b)
unfolding step enqueue request_flush
step-Grows (enqueues evt) b =
    if-cases (λ (r : Bool × Batcher). Grows b r.1) b.stop_closed (λ _. kept refl)
      (λ _.
        if-cases (λ (r : Bool × Batcher). Grows b r.1) (ltb (length b.inq) (capacity b.max_size))
          (λ _. kept refl) (λ _. kept refl))
step-Grows (requests caller) b =
    if-cases (λ (r : Bool × Batcher). Grows b r.1) b.stop_closed (λ _. kept refl)
      (λ _.
        if-cases (λ (r : Bool × Batcher). Grows b r.1) (ltb (length b.flush_req) flush_req_cap)
          (λ _. kept refl) (λ _. kept refl))
step-Grows closes_stop b = kept refl
step-Grows (receives conn) b = work-Grows (receives conn) b.state b
step-Grows (ticks conn) b = work-Grows (ticks conn) b.state b
step-Grows (serves conn) b = work-Grows (serves conn) b.state b
step-Grows (retries conn) b = work-Grows (retries conn) b.state b
step-Grows (stops conns) b = work-Grows (stops conns) b.state b

pub run-Grows : (acts : List Action) (b : Batcher) → Grows b (run acts b)
unfolding run
run-Grows [] b = kept refl
run-Grows (a ∷ acts) b =
    Grows-trans b (step a b) (run acts (step a b)) (step-Grows a b) (run-Grows acts (step a b))
