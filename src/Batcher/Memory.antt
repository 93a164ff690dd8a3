-- ===== src/Batcher/Memory.antt =====
-- internal/store/batcher.go: what an insert hands on to the callback and to the feed.
use archive_relay.Prelude.{
  ℕ, zero, suc, ◌+◌, ◌≤◌, ◌≡◌, refl, sym, ap, subst, ◌∙◌, Bool, true, false, ◌&&◌, Option, none,
  some, List, [], ◌∷◌, ◌++◌, append_assoc, append-nil, length, take, length-append, length-take,
  length-drop, ltb, leb, if-cases, if◌then◌else◌, arith, All, All-append,
}
use archive_relay.Nostr.{Event}
use archive_relay.Batcher.{
  WorkerState, normal, retry, stopped, Batcher, Conn, Reply, new_batcher, enqueue, request_flush,
  reply_all, is_empty, stage, chunk_size, sent_one, sends_chunk, arm, rest_or_normal, next_snapshot,
  send_failed, attempt, receive, serve_flush, retry_fires, Action, enqueues, requests, receives,
  ticks, serves, retries, closes_stop, stops, work, step, run, final_stage, final_loop, final_flush,
  capacity, flush_req_cap,
}

abbrev pub concat : List (List Event) → List Event
concat [] = []
concat (c ∷ cs) = c ++ concat cs

concat_snoc : (cs : List (List Event)) (c : List Event) → concat (cs ++ c ∷ []) ≡ concat cs ++ c
concat_snoc [] c = append-nil c
concat_snoc (x ∷ cs) c = ap (λ t. x ++ t) (concat_snoc cs c) ∙ sym (append_assoc x (concat cs) c)

abbrev pub offers : Bool → List Event → List Event
offers has_feed evts = if has_feed then evts else []

pub record Told (m : ℕ) (b : Batcher) : Type 0 where
  pub sized : b.max_size ≡ m
  pub told : concat b.notified ≡ b.sent
  pub fed : b.offered ≡ offers b.has_feed b.sent
  pub small : All (λ c. length c ≤ m) b.notified
  pub bounded : length b.inq ≤ capacity m

-- A change of the other fields, and of the channel if it does not grow, keeps this.
Told-same :
    {m : ℕ} {b : Batcher} (b' : Batcher)
    → b'.max_size ≡ b.max_size
    → b'.sent ≡ b.sent
    → b'.notified ≡ b.notified
    → (b'.has_feed ≡ b.has_feed) × (b'.offered ≡ b.offered)
    → length b'.inq ≤ length b.inq
    → Told m b
    → Told m b'
Told-same {m} b' e s n f le t = record {
  sized = e ∙ t.sized;
  told = ap concat n ∙ t.told ∙ sym s;
  fed = f.1 ∙ t.fed ∙ sym (ap (λ h. offers h b'.sent) f.0 ∙ ap (offers _) s);
  small = subst (λ l. All (λ c. length c ≤ m) l) (sym n) t.small;
  bounded = omega (arith, t.bounded);
}

stage-Told : (m n : ℕ) (b : Batcher) → Told m b → Told m (stage n b)
unfolding stage
stage-Told m n b t = Told-same _ refl refl refl (refl, refl) (omega (arith, length-drop n b.inq)) t

offers_more :
    (h : Bool) (o s c : List Event) → o ≡ offers h s → (if h then o ++ c else o) ≡ offers h (s ++ c)
offers_more true o s c e = ap (λ t. t ++ c) e
offers_more false o s c e = e

sent_one-Told : (m : ℕ) (b : Batcher) → Told m b → Told m (sent_one b)
unfolding sent_one
sent_one-Told m b t =
    let chunk = take (chunk_size b) b.pending in
    record {
      sized = t.sized;
      told = concat_snoc b.notified chunk ∙ ap (λ (l : List Event). l ++ chunk) t.told;
      fed = offers_more b.has_feed b.offered b.sent chunk t.fed;
      small =
          All-append _ b.notified (chunk ∷ []) t.small
            (omega (arith, t.sized, length-take (chunk_size b) b.pending), tt);
      bounded = t.bounded;
    }

rest_or_normal-Told : (m : ℕ) (b : Batcher) → Told m b → Told m (rest_or_normal b)
unfolding rest_or_normal reply_all arm
rest_or_normal-Told m b t =
    if-cases (Told m) (is_empty b.pending)
      (λ _. Told-same _ refl refl refl (refl, refl) (omega arith) t)
      (λ _. Told-same _ refl refl refl (refl, refl) (omega arith) t)

next_snapshot-Told : (m : ℕ) (b : Batcher) → Told m b → Told m (next_snapshot b)
unfolding next_snapshot
next_snapshot-Told m b t =
    if-cases (Told m) (is_empty b.pending && ltb 0 b.queued)
      (λ _.
        rest_or_normal-Told m _
          (Told-same _ refl refl refl (refl, refl) (omega arith) (stage-Told m b.queued b t)))
      (λ _. rest_or_normal-Told m b t)

attempt-Told : (m : ℕ) (conn : Conn) (b : Batcher) → Told m b → Told m (attempt conn b)
unfolding attempt send_failed reply_all arm
attempt-Told m conn b t =
    if-cases (Told m) (is_empty b.pending) (λ _. next_snapshot-Told m b t)
      (λ _.
        if-cases (Told m) (sends_chunk conn b)
          (λ _.
            next_snapshot-Told m _
              (Told-same _ refl refl refl (refl, refl) (omega arith) (sent_one-Told m b t)))
          (λ _. Told-same _ refl refl refl (refl, refl) (omega arith) t))

receive-Told :
    (m : ℕ) (conn : Conn) (q : List Event) (b : Batcher)
    → b.inq ≡ q
    → Told m b
    → Told m (receive conn q b)
unfolding receive
receive-Told m conn [] b e t = t
receive-Told m conn (evt ∷ rest) b e t =
    let b' = record b { inq = rest; buf = b.buf ++ evt ∷ [] } in
    let t' : Told m b' = Told-same b' refl refl refl (refl, refl) (omega (arith, ap length e)) t in
    if-cases (Told m) (leb b.max_size (length (b.buf ++ evt ∷ [])))
      (λ _. attempt-Told m conn _ (stage-Told m (length rest) b' t')) (λ _. t')

serve_flush-Told :
    (m : ℕ) (conn : Conn) (q : List Reply) (b : Batcher) → Told m b → Told m (serve_flush conn q b)
unfolding serve_flush
serve_flush-Told m conn [] b t = t
serve_flush-Told m conn (r ∷ rest) b t =
    let b' = record b { flush_req = rest; replies = b.replies ++ r ∷ []; queued = length b.inq } in
    let t' : Told m b' = Told-same b' refl refl refl (refl, refl) (omega arith) t in
    if-cases (Told m) (is_empty b.pending)
      (λ _.
        attempt-Told m conn _ (
          Told-same _ refl refl refl (refl, refl) (omega arith)
            (stage-Told m (length b.inq) b' t')))
      (λ _. attempt-Told m conn b' t')

final_stage-Told : (m : ℕ) (b : Batcher) → Told m b → Told m (final_stage b)
unfolding final_stage
final_stage-Told m b t =
    if-cases (Told m) (is_empty b.pending)
      (λ _. Told-same _ refl refl refl (refl, refl) (omega arith) (stage-Told m (length b.inq) b t))
      (λ _. t)

final_loop-Told :
    (m : ℕ) (conns : ℕ → Conn) (fuel i : ℕ) (b : Batcher)
    → Told m b
    → Told m (final_loop conns fuel i b)
unfolding final_loop reply_all
final_loop-Told m conns zero i b t = t
final_loop-Told m conns (suc fuel) i b t =
    let b' = final_stage b in
    let t' = final_stage-Told m b t in
    if-cases (Told m) (is_empty b'.pending)
      (λ _. Told-same _ refl refl refl (refl, refl) (omega arith) t')
      (λ _.
        if-cases (Told m) (sends_chunk (conns i) b')
          (λ _. final_loop-Told m conns fuel (i + 1) (sent_one b') (sent_one-Told m b' t'))
          (λ _. Told-same _ refl refl refl (refl, refl) (omega arith) t'))

stops-Told :
    (m : ℕ) (conns : ℕ → Conn) (b : Batcher)
    → Told m b
    → Told m (if b.stop_closed then final_flush conns b else b)
unfolding final_flush
stops-Told m conns b t =
    if-cases (Told m) b.stop_closed
      (λ _.
        final_loop-Told m conns _ 0 _
          (Told-same (record b { state = stopped }) refl refl refl (refl, refl) (omega arith) t))
      (λ _. t)

retry_fires-Told :
    (m : ℕ) (conn : Conn) (armed : Option ℕ) (b : Batcher)
    → Told m b
    → Told m (retry_fires conn armed b)
unfolding retry_fires
retry_fires-Told m conn none b t = t
retry_fires-Told m conn (some delay) b t = attempt-Told m conn b t

work-Told : (m : ℕ) (a : Action) (s : WorkerState) (b : Batcher) → Told m b → Told m (work a s b)
unfolding work
work-Told m (receives conn) normal b t = receive-Told m conn b.inq b refl t
work-Told m (ticks conn) normal b t = attempt-Told m conn _ (stage-Told m (length b.inq) b t)
work-Told m (serves conn) normal b t = serve_flush-Told m conn b.flush_req b t
work-Told m (serves conn) retry b t = serve_flush-Told m conn b.flush_req b t
work-Told m (retries conn) retry b t = retry_fires-Told m conn b.retry_in b t
work-Told m (stops conns) normal b t = stops-Told m conns b t
work-Told m (stops conns) retry b t = stops-Told m conns b t
work-Told m _ _ b t = t

enqueue-Told : (m : ℕ) (evt : Event) (b : Batcher) → Told m b → Told m (enqueue evt b).1
unfolding enqueue
enqueue-Told m evt b t =
    if-cases (λ (r : Bool × Batcher). Told m r.1) b.stop_closed (λ _. t)
      (λ _.
        if-cases (λ (r : Bool × Batcher). Told m r.1) (ltb (length b.inq) (capacity b.max_size))
          (λ h. record {
            sized = t.sized;
            told = t.told;
            fed = t.fed;
            small = t.small;
            bounded = room h;
          })
          (λ _. t))
  where
    room : ltb (length b.inq) (capacity b.max_size) ≡ true → length (b.inq ++ evt ∷ []) ≤ capacity m
    room h =
        let le : ltb (length b.inq) (capacity m) ≡ true =
          subst (λ n. ltb (length b.inq) (capacity n) ≡ true) t.sized h in
        ground (arith, length-append b.inq (evt ∷ []))

request_flush-Told :
    (m : ℕ) (caller : ℕ) (b : Batcher) → Told m b → Told m (request_flush caller b).1
unfolding request_flush
request_flush-Told m caller b t =
    if-cases (λ (r : Bool × Batcher). Told m r.1) b.stop_closed (λ _. t)
      (λ _.
        if-cases (λ (r : Bool × Batcher). Told m r.1) (ltb (length b.flush_req) flush_req_cap)
          (λ _. Told-same _ refl refl refl (refl, refl) (omega arith) t) (λ _. t))

step-Told : (m : ℕ) (a : Action) (b : Batcher) → Told m b → Told m (step a b)
unfolding step
step-Told m (enqueues evt) b t = enqueue-Told m evt b t
step-Told m (requests caller) b t = request_flush-Told m caller b t
step-Told m closes_stop b t = Told-same _ refl refl refl (refl, refl) (omega arith) t
step-Told m (receives conn) b t = work-Told m (receives conn) b.state b t
step-Told m (ticks conn) b t = work-Told m (ticks conn) b.state b t
step-Told m (serves conn) b t = work-Told m (serves conn) b.state b t
step-Told m (retries conn) b t = work-Told m (retries conn) b.state b t
step-Told m (stops conns) b t = work-Told m (stops conns) b.state b t

run-Told : (m : ℕ) (acts : List Action) (b : Batcher) → Told m b → Told m (run acts b)
unfolding run
run-Told m [] b t = t
run-Told m (a ∷ acts) b t = run-Told m acts (step a b) (step-Told m a b t)

new_batcher-Told : (m : ℕ) (has_feed : Bool) → Told m (new_batcher m has_feed)
unfolding new_batcher
new_batcher-Told m true = record {
  sized = refl;
  told = refl;
  fed = refl;
  small = tt;
  bounded = omega arith;
}
new_batcher-Told m false = record {
  sized = refl;
  told = refl;
  fed = refl;
  small = tt;
  bounded = omega arith;
}

-- After any run, the callback was given exactly the inserted rows in their order, in chunks of at
-- most the batch size, the feed was offered the same rows if there is one, and the channel holds no
-- more than its capacity.
pub run-handed_on :
    (max_size : ℕ) (has_feed : Bool) (acts : List Action)
    → let b = run acts (new_batcher max_size has_feed) in
      (concat b.notified ≡ b.sent)
      × (b.offered ≡ offers b.has_feed b.sent)
      × All (λ chunk. length chunk ≤ max_size) b.notified
      × (length b.inq ≤ capacity max_size)
run-handed_on max_size has_feed acts =
    let t =
      run-Told max_size acts (new_batcher max_size has_feed) (new_batcher-Told max_size has_feed) in
    (t.told, t.fed, t.small, t.bounded)
