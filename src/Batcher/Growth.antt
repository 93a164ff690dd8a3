-- ===== src/Batcher/Growth.antt =====
-- internal/store/batcher.go: only enqueue accepts events, and it adds them at the end.
use archive_relay.Prelude.{
  ℕ, zero, suc, ◌+◌, ◌≡◌, refl, sym, ap, ◌∙◌, Bool, ◌&&◌, Option, none, some, List, [], ◌∷◌, ◌++◌,
  append-nil, append_assoc, length, ltb, leb, if-cases,
}
use archive_relay.Nostr.{Event}
use archive_relay.Batcher.{
  normal, retry, stopped, WorkerState, Reply, Conn, Batcher, capacity, flush_req_cap, enqueue,
  request_flush, reply_all, is_empty, stage, sent_one, sends_chunk, arm, rest_or_normal,
  next_snapshot, send_failed, attempt, receive, serve_flush, final_stage, final_loop, final_flush,
  retry_fires, Action, enqueues, requests, receives, ticks, serves, retries, closes_stop, stops,
  work, step, run,
}

abbrev Kept : Batcher → Batcher → Type 0
Kept b b' = b'.accepted ≡ b.accepted

rest_or_normal-Kept : (b : Batcher) → Kept b (rest_or_normal b)
unfolding rest_or_normal reply_all arm
rest_or_normal-Kept b = if-cases (Kept b) (is_empty b.pending) (λ _. refl) (λ _. refl)

attempt-Kept : (conn : Conn) (b : Batcher) → Kept b (attempt conn b)
unfolding attempt sent_one send_failed arm reply_all
attempt-Kept conn b =
    if-cases (Kept b) (is_empty b.pending) (λ _. next b)
      (λ _.
        if-cases (Kept b) (sends_chunk conn b) (λ _. next (record (sent_one b) { fails = 0 }))
          (λ _. refl))
  where
    next : (c : Batcher) → Kept c (next_snapshot c)
    next c =
        unfold next_snapshot stage in
        if-cases (Kept c) (is_empty c.pending && ltb 0 c.queued)
          (λ _. rest_or_normal-Kept (record (stage c.queued c) { queued = 0 }))
          (λ _. rest_or_normal-Kept c)

receive-Kept : (conn : Conn) (q : List Event) (b : Batcher) → Kept b (receive conn q b)
unfolding receive stage
receive-Kept conn [] b = refl
receive-Kept conn (evt ∷ rest) b =
    let b' : Batcher = record b { inq = rest; buf = b.buf ++ evt ∷ [] } in
    if-cases (Kept b) (leb b.max_size (length (b.buf ++ evt ∷ [])))
      (λ _. attempt-Kept conn (stage (length rest) b')) (λ _. refl)

serve_flush-Kept : (conn : Conn) (rs : List Reply) (b : Batcher) → Kept b (serve_flush conn rs b)
unfolding serve_flush stage
serve_flush-Kept conn [] b = refl
serve_flush-Kept conn (r ∷ rest) b =
    let b' : Batcher = record b {
      flush_req = rest;
      replies = b.replies ++ r ∷ [];
      queued = length b.inq;
    } in
    if-cases (Kept b) (is_empty b.pending)
      (λ _. attempt-Kept conn (record (stage (length b.inq) b') { queued = 0 }))
      (λ _. attempt-Kept conn b')

final_loop-Kept : (conns : ℕ → Conn) (fuel i : ℕ) (b : Batcher) → Kept b (final_loop conns fuel i b)
unfolding final_loop final_stage stage sent_one reply_all
final_loop-Kept conns zero i b = refl
final_loop-Kept conns (suc fuel) i b =
    let b' = final_stage b in
    let same : Kept b b' = if-cases (Kept b) (is_empty b.pending) (λ _. refl) (λ _. refl) in
    if-cases (Kept b) (is_empty b'.pending) (λ _. same)
      (λ _.
        if-cases (Kept b) (sends_chunk (conns i) b')
          (λ _. final_loop-Kept conns fuel (i + 1) (sent_one b') ∙ same) (λ _. same))

retry_fires-Kept :
    (conn : Conn) (delay : Option ℕ) (b : Batcher) → Kept b (retry_fires conn delay b)
unfolding retry_fires
retry_fires-Kept conn none b = refl
retry_fires-Kept conn (some delay) b = attempt-Kept conn b

work-Kept : (a : Action) (s : WorkerState) (b : Batcher) → Kept b (work a s b)
unfolding work final_flush stage
work-Kept (receives conn) normal b = receive-Kept conn b.inq b
work-Kept (ticks conn) normal b = attempt-Kept conn (stage (length b.inq) b)
work-Kept (serves conn) normal b = serve_flush-Kept conn b.flush_req b
work-Kept (serves conn) retry b = serve_flush-Kept conn b.flush_req b
work-Kept (retries conn) retry b = retry_fires-Kept conn b.retry_in b
work-Kept (stops conns) normal b =
    if-cases (Kept b) b.stop_closed (λ _. final_loop-Kept conns _ 0 (record b { state = stopped }))
      (λ _. refl)
work-Kept (stops conns) retry b =
    if-cases (Kept b) b.stop_closed (λ _. final_loop-Kept conns _ 0 (record b { state = stopped }))
      (λ _. refl)
work-Kept _ _ b = refl

-- The accepted events of `b` are the first of those of `b'`.
abbrev pub Extends : Batcher → Batcher → Type 0
Extends b b' = (more : List Event) × (b'.accepted ≡ b.accepted ++ more)

kept : {old new : List Event} → new ≡ old → (more : List Event) × (new ≡ old ++ more)
kept {old} h = ([], h ∙ sym (append-nil old))

step-Extends : (a : Action) (b : Batcher) → Extends b (step a b)
unfolding step enqueue request_flush
step-Extends (enqueues evt) b =
    if-cases (λ (r : Bool × Batcher). Extends b r.1) b.stop_closed (λ _. kept refl)
      (λ _.
        if-cases (λ (r : Bool × Batcher). Extends b r.1) (ltb (length b.inq) (capacity b.max_size))
          (λ _. (evt ∷ [], refl)) (λ _. kept refl))
step-Extends (requests caller) b =
    if-cases (λ (r : Bool × Batcher). Extends b r.1) b.stop_closed (λ _. kept refl)
      (λ _.
        if-cases (λ (r : Bool × Batcher). Extends b r.1) (ltb (length b.flush_req) flush_req_cap)
          (λ _. kept refl) (λ _. kept refl))
step-Extends closes_stop b = kept refl
step-Extends (receives conn) b = kept (work-Kept (receives conn) b.state b)
step-Extends (ticks conn) b = kept (work-Kept (ticks conn) b.state b)
step-Extends (serves conn) b = kept (work-Kept (serves conn) b.state b)
step-Extends (retries conn) b = kept (work-Kept (retries conn) b.state b)
step-Extends (stops conns) b = kept (work-Kept (stops conns) b.state b)

-- Events that a batcher has accepted stay accepted, in their places.
pub run-Extends : (acts : List Action) (b : Batcher) → Extends b (run acts b)
unfolding run
run-Extends [] b = kept refl
run-Extends (a ∷ acts) b =
    let (one, e) = step-Extends a b in
    let (more, f) = run-Extends acts (step a b) in
    (one ++ more, f ∙ ap (λ l. l ++ more) e ∙ append_assoc b.accepted one more)

pub run-append : (xs ys : List Action) (b : Batcher) → run (xs ++ ys) b ≡ run ys (run xs b)
unfolding run
run-append [] ys b = refl
run-append (a ∷ xs) ys b = run-append xs ys (step a b)
