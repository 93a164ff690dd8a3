-- ===== src/Batcher/Flush.antt =====
-- internal/store/batcher.go: the answers of FlushAll and the events that are inserted.
use archive_relay.Prelude.{
  ℕ, zero, suc, ◌+◌, ◌≤◌, ◌≡◌, ◌≢◌, refl, sym, ap, subst, ◌∙◌, Bool, true, false, Option, none,
  some, List, [], ◌∷◌, ◌++◌, map, length, take, length-append, length-drop, ltb, leb, if-cases,
  arith, All-append, All-lookup, Memᴰ, take-append_le,
}
use archive_relay.Nostr.{Event}
use archive_relay.Batcher.{
  WorkerState, normal, retry, stopped, Batcher, Conn, Reply, Answer, answer_with, new_batcher,
  enqueue, request_flush, reply_all, is_empty, stage, sent_one, sends_chunk, receive, serve_flush,
  retry_fires, Action, enqueues, requests, receives, ticks, serves, retries, closes_stop, stops,
  work, step, run, final_stage, final_loop, final_flush, capacity, flush_req_cap,
}
use archive_relay.Batcher.Attempt.{length-Conserved, Shape, Inv, is_empty-nil}
use archive_relay.Batcher.Conserve.{
  retry-Shape, run-conserved, step-Inv, new_batcher-Inv, Final, final_stage-Final, sent_one-Final,
}
use archive_relay.Batcher.Promises.{
  Upto, Kept, Upto-mono, Kept-yes, Kept-no, Kept-mono, Promises, length-stage, length-sent_one,
  attempt-Promises,
}

Shape-queued : (s : WorkerState) (b : Batcher) → s ≢ stopped → Shape s b → b.queued ≤ length b.inq
Shape-queued normal b n h = omega (arith, h.2)
Shape-queued retry b n h = h.2
Shape-queued stopped b n h = absurd (n refl)

Upto-nil : (n : ℕ) (rs : List Reply) → rs ≡ [] → Upto n rs
Upto-nil n rs e = subst (Upto n) (sym e) tt

-- The promises of a worker that may have stopped.
pub record Served (b : Batcher) : Type 0 where
  pub requested : Upto (length b.accepted) b.flush_req
  pub waiting : b.state ≢ stopped → Upto (length b.sent + length b.pending + b.queued) b.replies
  pub answered : Kept (length b.sent) b.answers

Promises-Served : (b : Batcher) → Promises b → Served b
Promises-Served b p = record {
  requested = p.requested;
  waiting = λ _. p.waiting;
  answered = p.answered;
}

stage-Promises : (n : ℕ) (b : Batcher) → b.replies ≡ [] → Served b → Promises (stage n b)
unfolding stage
stage-Promises n b e p = record {
  requested = p.requested;
  waiting = Upto-nil _ b.replies e;
  answered = p.answered;
}

receive-Served :
    (conn : Conn) (q : List Event) (b : Batcher)
    → b.state ≡ normal
    → Inv b
    → Served b
    → Served (receive conn q b)
unfolding receive
receive-Served conn [] b n v p = p
receive-Served conn (evt ∷ rest) b n v p =
    let b' = record b { inq = rest; buf = b.buf ++ evt ∷ [] } in
    let shape : Shape normal b = subst (λ s. Shape s b) n v.shaped in
    let p' : Served b' = record {
      requested = p.requested;
      waiting = p.waiting;
      answered = p.answered;
    } in
    if-cases Served (leb b.max_size (length (b.buf ++ evt ∷ [])))
      (λ _. Promises-Served _ (
        attempt-Promises conn (stage (length rest) b') (unfold stage in omega (arith, shape.2))
          (stage-Promises (length rest) b' shape.1 p')))
      (λ _. p')

serve_flush-Served :
    (conn : Conn) (q : List Reply) (b : Batcher)
    → b.flush_req ≡ q
    → b.state ≢ stopped
    → Inv b
    → Served b
    → Served (serve_flush conn q b)
unfolding serve_flush
serve_flush-Served conn [] b e n v p = p
serve_flush-Served conn (r ∷ rest) b e n v p =
    let b' = record b { flush_req = rest; replies = b.replies ++ r ∷ []; queued = length b.inq } in
    let count = length-Conserved b v.conserved in
    let queued_le = Shape-queued b.state b n v.shaped in
    let asked : Upto (length b.accepted) (r ∷ rest) =
      subst (Upto (length b.accepted)) e p.requested in
    let waiting : Upto (length b.accepted) (b.replies ++ r ∷ []) =
      All-append _ b.replies (r ∷ []) (Upto-mono _ _ b.replies (omega arith) (p.waiting n))
        (asked.0, tt) in
    if-cases Served (is_empty b.pending)
      (λ h.
        let none_left : length b.pending ≡ 0 = ap length (is_empty-nil b.pending h) in
        let grown : length (b.buf ++ take (length b.inq) b.inq) ≡ length b.buf + length b.inq =
          unfold stage in length-stage (length b.inq) b (omega arith) in
        Promises-Served _ (
          attempt-Promises conn (record (stage (length b.inq) b') { queued = 0 })
            (unfold stage in omega arith)
            (unfold stage in
              record {
                requested = asked.1;
                waiting = Upto-mono _ _ _ (omega (arith, grown)) waiting;
                answered = p.answered;
              })))
      (λ h.
        let (again, shape) = retry-Shape b.state b n h v.shaped in
        let no_buf : length b.buf ≡ 0 = ap length shape.1 in
        Promises-Served _ (
          attempt-Promises conn b' (omega arith) (record {
            requested = asked.1;
            waiting = Upto-mono _ _ _ (omega arith) waiting;
            answered = p.answered;
          })))

-- The final flush: what its loop keeps.
pub record Ending (b : Batcher) : Type 0 where
  pub final : Final b
  pub requested : Upto (length b.accepted) b.flush_req
  pub waiting : Upto (length b.accepted) b.replies
  pub answered : Kept (length b.sent) b.answers

final_stage-Ending : (b : Batcher) → Ending b → Ending (final_stage b)
unfolding final_stage stage
final_stage-Ending b f =
    let f' = final_stage-Final b f.final in
    let more = (λ (x : Batcher). Final x → Ending x) in
    if-cases more (is_empty b.pending)
      (λ _ g. record {
        final = g;
        requested = f.requested;
        waiting = f.waiting;
        answered = f.answered;
      })
      (λ _ g. f) f'

-- When the loop finds nothing pending, nothing is left anywhere.
final_stage-done :
    (b : Batcher)
    → is_empty (final_stage b).pending ≡ true
    → (length (final_stage b).buf ≡ 0) × (length (final_stage b).inq ≡ 0)
unfolding final_stage stage
final_stage-done b =
    if-cases (λ (x : Batcher). is_empty x.pending ≡ true → (length x.buf ≡ 0) × (length x.inq ≡ 0))
      (is_empty b.pending) (λ _ _. (refl, omega (arith, length-drop (length b.inq) b.inq)))
      (λ h e. cc)

sent_one-Ending : (b : Batcher) → Ending b → Ending (sent_one b)
unfolding sent_one
sent_one-Ending b f = record {
  final = unfold sent_one in sent_one-Final b f.final;
  requested = f.requested;
  waiting = f.waiting;
  answered = Kept-mono _ _ b.answers (length-sent_one b).1 f.answered;
}

final_loop-Ending :
    (conns : ℕ → Conn) (fuel i : ℕ) (b : Batcher) → Ending b → Served (final_loop conns fuel i b)
unfolding final_loop reply_all
final_loop-Ending conns zero i b f = record {
  requested = f.requested;
  waiting = λ n. absurd (n f.final.over);
  answered = f.answered;
}
final_loop-Ending conns (suc fuel) i b f =
    let b' = final_stage b in
    let f' = final_stage-Ending b f in
    if-cases Served (is_empty b'.pending)
      (λ e.
        let none_left : length b'.pending ≡ 0 = ap length (is_empty-nil b'.pending e) in
        let (no_buf, no_inq) = final_stage-done b e in
        let count = length-Conserved b' f'.final.conserved in
        record {
          requested = f'.requested;
          waiting = λ n. tt;
          answered = All-append _ b'.answers (map (answer_with true) b'.replies) f'.answered (
              Kept-yes (length b'.sent) b'.replies
                (Upto-mono _ _ b'.replies (omega arith) f'.waiting));
        })
      (λ _.
        if-cases Served (sends_chunk (conns i) b')
          (λ _. final_loop-Ending conns fuel (i + 1) (sent_one b') (sent_one-Ending b' f'))
          (λ _. record {
            requested = f'.requested;
            waiting = λ n. tt;
            answered =
                All-append _ b'.answers (map (answer_with false) b'.replies) f'.answered
                  (Kept-no (length b'.sent) b'.replies);
          }))

retry_fires-Served :
    (conn : Conn) (armed : Option ℕ) (b : Batcher)
    → b.state ≡ retry
    → Inv b
    → Served b
    → Served (retry_fires conn armed b)
unfolding retry_fires
retry_fires-Served conn none b e v p = p
retry_fires-Served conn (some delay) b e v p =
    let shape : Shape retry b = subst (λ s. Shape s b) e v.shaped in
    Promises-Served _ (
      attempt-Promises conn b shape.2
        (record { requested = p.requested; waiting = p.waiting (λ h. cc); answered = p.answered }))

final_flush-Served :
    (conns : ℕ → Conn) (b : Batcher)
    → b.state ≢ stopped
    → b.stop_closed ≡ true
    → Inv b
    → Served b
    → Served (final_flush conns b)
unfolding final_flush
final_flush-Served conns b n closed v p =
    let count = length-Conserved b v.conserved in
    let queued_le = Shape-queued b.state b n v.shaped in
    final_loop-Ending conns _ 0 (record b { state = stopped })
      (record {
        final = record { conserved = v.conserved; over = refl; closed = closed };
        requested = p.requested;
        waiting = Upto-mono _ _ b.replies (omega arith) (p.waiting n);
        answered = p.answered;
      })

work-Served :
    (a : Action) (s : WorkerState) (b : Batcher)
    → b.state ≡ s
    → Inv b
    → Served b
    → Served (work a s b)
unfolding work
work-Served (receives conn) normal b e v p = receive-Served conn b.inq b e v p
work-Served (ticks conn) normal b e v p =
    let shape : Shape normal b = subst (λ s. Shape s b) e v.shaped in
    Promises-Served _ (
      attempt-Promises conn (stage (length b.inq) b) (unfold stage in omega (arith, shape.2))
        (stage-Promises (length b.inq) b shape.1 p))
work-Served (serves conn) normal b e v p = serve_flush-Served conn b.flush_req b refl (λ n. cc) v p
work-Served (serves conn) retry b e v p = serve_flush-Served conn b.flush_req b refl (λ n. cc) v p
work-Served (retries conn) retry b e v p = retry_fires-Served conn b.retry_in b e v p
work-Served (stops conns) normal b e v p =
    if-cases Served b.stop_closed (λ c. final_flush-Served conns b (λ n. cc) c v p) (λ _. p)
work-Served (stops conns) retry b e v p =
    if-cases Served b.stop_closed (λ c. final_flush-Served conns b (λ n. cc) c v p) (λ _. p)
work-Served _ _ b e v p = p

enqueue-Served : (evt : Event) (b : Batcher) → Served b → Served (enqueue evt b).1
unfolding enqueue
enqueue-Served evt b p =
    if-cases (λ (r : Bool × Batcher). Served r.1) b.stop_closed (λ _. p)
      (λ _.
        if-cases (λ (r : Bool × Batcher). Served r.1) (ltb (length b.inq) (capacity b.max_size))
          (λ _. record {
            requested =
                Upto-mono _ _ b.flush_req (omega (arith, length-append b.accepted (evt ∷ [])))
                  p.requested;
            waiting = p.waiting;
            answered = p.answered;
          })
          (λ _. p))

request_flush-Served : (caller : ℕ) (b : Batcher) → Served b → Served (request_flush caller b).1
unfolding request_flush
request_flush-Served caller b p =
    if-cases (λ (r : Bool × Batcher). Served r.1) b.stop_closed (λ _. p)
      (λ _.
        if-cases (λ (r : Bool × Batcher). Served r.1) (ltb (length b.flush_req) flush_req_cap)
          (λ _. record {
            requested = All-append _ b.flush_req _ p.requested (omega arith, tt);
            waiting = p.waiting;
            answered = p.answered;
          })
          (λ _. p))

step-Served : (a : Action) (b : Batcher) → Inv b → Served b → Served (step a b)
unfolding step
step-Served (enqueues evt) b v p = enqueue-Served evt b p
step-Served (requests caller) b v p = request_flush-Served caller b p
step-Served closes_stop b v p = record {
  requested = p.requested;
  waiting = p.waiting;
  answered = p.answered;
}
step-Served (receives conn) b v p = work-Served (receives conn) b.state b refl v p
step-Served (ticks conn) b v p = work-Served (ticks conn) b.state b refl v p
step-Served (serves conn) b v p = work-Served (serves conn) b.state b refl v p
step-Served (retries conn) b v p = work-Served (retries conn) b.state b refl v p
step-Served (stops conns) b v p = work-Served (stops conns) b.state b refl v p

run-Served : (acts : List Action) (b : Batcher) → Inv b → Served b → Served (run acts b)
unfolding run
run-Served [] b v p = p
run-Served (a ∷ acts) b v p = run-Served acts (step a b) (step-Inv a b v) (step-Served a b v p)

-- When FlushAll is answered with no error, the events that were accepted before it was requested
-- are inserted, in their order, whatever the interleaving of producers, worker rounds and the
-- stop, and whatever inserts fail.
pub run-flushed :
    (max_size : ℕ) (has_feed : Bool) (acts : List Action) (a : Answer)
    → Memᴰ a (run acts (new_batcher max_size has_feed)).answers
    → a.flushed ≡ true
    → let b = run acts (new_batcher max_size has_feed) in
      (a.reply.asked ≤ length b.sent) × (take a.reply.asked b.accepted ≡ take a.reply.asked b.sent)
run-flushed max_size has_feed acts a m h =
    let b0 = new_batcher max_size has_feed in
    let b = run acts b0 in
    let p = run-Served acts b0 (new_batcher-Inv max_size has_feed) new_batcher-Served in
    let le = All-lookup _ b.answers p.answered m h in
    let same = run-conserved max_size has_feed acts in
    (le, ap (take a.reply.asked) same ∙ take-append_le a.reply.asked b.sent _ le)
  where
    new_batcher-Served : Served (new_batcher max_size has_feed)
    new_batcher-Served =
        unfold new_batcher in record { requested = tt; waiting = λ _. tt; answered = tt }
