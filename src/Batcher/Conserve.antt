-- ===== src/Batcher/Conserve.antt =====
-- internal/store/batcher.go: where the events are between enqueue and the inserts.
use archive_relay.Prelude.{
  ℕ, zero, suc, ◌+◌, ◌≡◌, ◌≢◌, refl, sym, ap, subst, ◌∙◌, Bool, true, false, Option, none, some,
  List, [], ◌∷◌, ◌++◌, append_assoc, length, length-append, ltb, leb, if-cases, arith,
}
use archive_relay.Nostr.{Event}
use archive_relay.Batcher.{
  WorkerState, normal, retry, stopped, Batcher, Conn, Reply, new_batcher, enqueue, request_flush,
  reply_all, is_empty, stage, sent_one, sends_chunk, receive, serve_flush, Action, enqueues,
  requests, receives, ticks, serves, retries, closes_stop, stops, work, step, run, retry_fires,
  capacity, flush_req_cap, final_stage, final_loop, final_flush,
}
use archive_relay.Batcher.Attempt.{
  Conserved, Shape, Inv, is_empty-nil, stage-Conserved, sent_one-Conserved, stage-Ready,
  attempt-Inv,
}

receive-Inv :
    (conn : Conn) (q : List Event) (b : Batcher)
    → b.inq ≡ q
    → b.state ≡ normal
    → Inv b
    → Inv (receive conn q b)
unfolding receive
receive-Inv conn [] b e n v = v
receive-Inv conn (evt ∷ rest) b e n v =
    let b' = record b { inq = rest; buf = b.buf ++ evt ∷ [] } in
    let shape : Shape normal b = subst (λ s. Shape s b) n v.shaped in
    let kept : Conserved b' =
      v.conserved
      ∙ ap (λ (t : List Event). b.sent ++ (b.pending ++ t))
          (ap (λ (t : List Event). b.buf ++ t) e ∙ sym (append_assoc b.buf (evt ∷ []) rest)) in
    if-cases Inv (leb b.max_size (length (b.buf ++ evt ∷ [])))
      (λ _.
        attempt-Inv conn (stage (length rest) b')
          (stage-Ready (length rest) b' shape.0 (omega (arith, shape.2)) kept))
      (λ _. record { conserved = kept; shaped = subst (λ s. Shape s b') (sym n) shape })

-- Before the stop, a batch is pending only in the state retry.
pub retry-Shape :
    (s : WorkerState) (b : Batcher)
    → s ≢ stopped
    → is_empty b.pending ≡ false
    → Shape s b
    → (s ≡ retry) × Shape retry b
retry-Shape normal b n e h = absurd (cc (ap (is_empty {A = Event}) h.0))
retry-Shape retry b n e h = (refl, h)
retry-Shape stopped b n e h = absurd (n refl)

serve_flush-Inv :
    (conn : Conn) (q : List Reply) (b : Batcher)
    → b.state ≢ stopped
    → Inv b
    → Inv (serve_flush conn q b)
unfolding serve_flush
serve_flush-Inv conn [] b n v = v
serve_flush-Inv conn (r ∷ rest) b n v =
    let b' = record b { flush_req = rest; replies = b.replies ++ r ∷ []; queued = length b.inq } in
    if-cases Inv (is_empty b.pending)
      (λ e.
        let s =
          stage-Ready (length b.inq) (record b' { queued = 0 }) (is_empty-nil b.pending e)
            (omega arith) v.conserved in
        attempt-Inv conn (record (stage (length b.inq) b') { queued = 0 }) (unfold stage in s))
      (λ e.
        let (again, shape) = retry-Shape b.state b n e v.shaped in
        attempt-Inv conn b' (record {
          conserved = v.conserved;
          staged = shape.1;
          covered = omega arith;
          retrying = λ _. again;
        }))

-- The final flush: what its loop keeps.
pub record Final (b : Batcher) : Type 0 where
  pub conserved : Conserved b
  pub over : b.state ≡ stopped
  pub closed : b.stop_closed ≡ true

pub sent_one-Final : (b : Batcher) → Final b → Final (sent_one b)
sent_one-Final b f = record {
  conserved = sent_one-Conserved b f.conserved;
  over = unfold sent_one in f.over;
  closed = unfold sent_one in f.closed;
}

pub final_stage-Final : (b : Batcher) → Final b → Final (final_stage b)
unfolding final_stage
final_stage-Final b f =
    if-cases Final (is_empty b.pending)
      (λ e. record {
        conserved = stage-Conserved (length b.inq) b (is_empty-nil b.pending e) f.conserved;
        over = refl;
        closed = unfold stage in f.closed;
      })
      (λ _. f)

final_loop-Final :
    (conns : ℕ → Conn) (fuel i : ℕ) (b : Batcher) → Final b → Final (final_loop conns fuel i b)
unfolding final_loop reply_all
final_loop-Final conns zero i b f = f
final_loop-Final conns (suc fuel) i b f =
    let b' = final_stage b in
    let f' = final_stage-Final b f in
    if-cases Final (is_empty b'.pending)
      (λ _. record { conserved = f'.conserved; over = f'.over; closed = f'.closed })
      (λ _.
        if-cases Final (sends_chunk (conns i) b')
          (λ _. final_loop-Final conns fuel (i + 1) (sent_one b') (sent_one-Final b' f'))
          (λ _. record { conserved = f'.conserved; over = f'.over; closed = f'.closed }))

final_flush-Inv :
    (conns : ℕ → Conn) (b : Batcher) → b.stop_closed ≡ true → Inv b → Inv (final_flush conns b)
unfolding final_flush
final_flush-Inv conns b closed v =
    let n = length b.pending + length b.buf + length b.inq + 1 in
    let f =
      final_loop-Final conns n 0 (record b { state = stopped })
        (record { conserved = v.conserved; over = refl; closed = closed }) in
    record {
      conserved = f.conserved;
      shaped = subst (λ s. Shape s (final_flush conns b)) (sym f.over) f.closed;
    }

retry_fires-Inv :
    (conn : Conn) (armed : Option ℕ) (b : Batcher)
    → b.state ≡ retry
    → Inv b
    → Inv (retry_fires conn armed b)
unfolding retry_fires
retry_fires-Inv conn none b e v = v
retry_fires-Inv conn (some delay) b e v =
    let shape : Shape retry b = subst (λ s. Shape s b) e v.shaped in
    attempt-Inv conn b
      (record { conserved = v.conserved; staged = shape.1; covered = shape.2; retrying = λ _. e })

work-Inv : (a : Action) (s : WorkerState) (b : Batcher) → b.state ≡ s → Inv b → Inv (work a s b)
unfolding work
work-Inv (receives conn) normal b e v = receive-Inv conn b.inq b refl e v
work-Inv (ticks conn) normal b e v =
    let shape : Shape normal b = subst (λ s. Shape s b) e v.shaped in
    attempt-Inv conn (stage (length b.inq) b)
      (stage-Ready (length b.inq) b shape.0 (omega (arith, shape.2)) v.conserved)
work-Inv (serves conn) normal b e v = serve_flush-Inv conn b.flush_req b (λ n. cc) v
work-Inv (serves conn) retry b e v = serve_flush-Inv conn b.flush_req b (λ n. cc) v
work-Inv (retries conn) retry b e v = retry_fires-Inv conn b.retry_in b e v
work-Inv (stops conns) normal b e v =
    if-cases Inv b.stop_closed (λ c. final_flush-Inv conns b c v) (λ _. v)
work-Inv (stops conns) retry b e v =
    if-cases Inv b.stop_closed (λ c. final_flush-Inv conns b c v) (λ _. v)
work-Inv _ _ b e v = v

Shape-enqueue :
    (s : WorkerState) (evt : Event) (b : Batcher)
    → Shape s b
    → Shape s (record b { inq = b.inq ++ evt ∷ []; accepted = b.accepted ++ evt ∷ [] })
Shape-enqueue normal evt b h = h
Shape-enqueue retry evt b h = (h.0, h.1, omega (arith, h.2, length-append b.inq (evt ∷ [])), h.3)
Shape-enqueue stopped evt b h = h

enqueue-Inv : (evt : Event) (b : Batcher) → Inv b → Inv (enqueue evt b).1
unfolding enqueue
enqueue-Inv evt b v =
    if-cases (λ (r : Bool × Batcher). Inv r.1) b.stop_closed (λ _. v)
      (λ _.
        if-cases (λ (r : Bool × Batcher). Inv r.1) (ltb (length b.inq) (capacity b.max_size))
          (λ _. record {
            conserved = rw v.conserved (simp append_assoc);
            shaped = Shape-enqueue b.state evt b v.shaped;
          })
          (λ _. v))

Shape-request :
    (s : WorkerState) (b : Batcher) (q : List Reply)
    → Shape s b
    → Shape s (record b { flush_req = q })
Shape-request normal b q h = h
Shape-request retry b q h = h
Shape-request stopped b q h = h

request_flush-Inv : (caller : ℕ) (b : Batcher) → Inv b → Inv (request_flush caller b).1
unfolding request_flush
request_flush-Inv caller b v =
    if-cases (λ (r : Bool × Batcher). Inv r.1) b.stop_closed (λ _. v)
      (λ _.
        if-cases (λ (r : Bool × Batcher). Inv r.1) (ltb (length b.flush_req) flush_req_cap)
          (λ _. record { conserved = v.conserved; shaped = Shape-request b.state b _ v.shaped })
          (λ _. v))

Shape-closed :
    (s : WorkerState) (b : Batcher) → Shape s b → Shape s (record b { stop_closed = true })
Shape-closed normal b h = h
Shape-closed retry b h = h
Shape-closed stopped b h = refl

pub step-Inv : (a : Action) (b : Batcher) → Inv b → Inv (step a b)
unfolding step
step-Inv (enqueues evt) b v = enqueue-Inv evt b v
step-Inv (requests caller) b v = request_flush-Inv caller b v
step-Inv closes_stop b v = record {
  conserved = v.conserved;
  shaped = Shape-closed b.state b v.shaped;
}
step-Inv (receives conn) b v = work-Inv (receives conn) b.state b refl v
step-Inv (ticks conn) b v = work-Inv (ticks conn) b.state b refl v
step-Inv (serves conn) b v = work-Inv (serves conn) b.state b refl v
step-Inv (retries conn) b v = work-Inv (retries conn) b.state b refl v
step-Inv (stops conns) b v = work-Inv (stops conns) b.state b refl v

pub run-Inv : (acts : List Action) (b : Batcher) → Inv b → Inv (run acts b)
unfolding run
run-Inv [] b v = v
run-Inv (a ∷ acts) b v = run-Inv acts (step a b) (step-Inv a b v)

pub new_batcher-Inv : (max_size : ℕ) (has_feed : Bool) → Inv (new_batcher max_size has_feed)
unfolding new_batcher
new_batcher-Inv max_size has_feed = record { conserved = refl; shaped = (refl, refl, refl, refl) }

-- After any interleaving of producers, flush requests, worker rounds and the stop, whatever inserts
-- fail, the accepted events are, in order and each once, those inserted, those pending, those in
-- the buffer and those in the channel.
pub run-conserved :
    (max_size : ℕ) (has_feed : Bool) (acts : List Action)
    → let b = run acts (new_batcher max_size has_feed) in
      b.accepted ≡ b.sent ++ (b.pending ++ (b.buf ++ b.inq))
run-conserved max_size has_feed acts =
    (run-Inv acts (new_batcher max_size has_feed) (new_batcher-Inv max_size has_feed)).conserved

-- The worker is never stuck: after any run, while a batch is pending and it has not stopped, it is in
-- the state retry and a retry is armed.
pub run-armed :
    (max_size : ℕ) (has_feed : Bool) (acts : List Action)
    → (run acts (new_batcher max_size has_feed)).state ≢ stopped
    → is_empty (run acts (new_batcher max_size has_feed)).pending ≡ false
    → let b = run acts (new_batcher max_size has_feed) in (b.state ≡ retry) × (b.retry_in ≢ none)
run-armed max_size has_feed acts n e =
    let b0 = new_batcher max_size has_feed in
    let v = run-Inv acts b0 (new_batcher-Inv max_size has_feed) in
    let (again, shape) = retry-Shape _ (run acts b0) n e v.shaped in (again, shape.3)
