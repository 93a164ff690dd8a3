-- ===== src/Batcher/Shutdown.antt =====
-- internal/store/batcher.go: the final flush in a run of the worker.
use archive_relay.Prelude.{
  ℕ, zero, suc, ◌+◌, ◌<◌, ◌≡◌, ◌≢◌, refl, sym, ap, subst, ◌∙◌, Bool, true, List, [], ◌∷◌, ◌++◌,
  length, take, ltb, if-cases, if◌then◌else◌, append-nil, inl, inr, arith,
}
use archive_relay.Nostr.{Event}
use archive_relay.Batcher.{
  WorkerState, normal, retry, stopped, Batcher, Conn, new_batcher, enqueue, request_flush,
  reply_all, flush_context, is_empty, stage, chunk_size, sent_one, sends_chunk, Action, enqueues,
  requests, receives, ticks, serves, retries, closes_stop, stops, work, step, run, final_stage,
  final_loop, final_flush, capacity, flush_req_cap,
}
use archive_relay.Batcher.Attempt.{length-Conserved}
use archive_relay.Batcher.Conserve.{run-conserved, run-Inv, step-Inv, new_batcher-Inv}
use archive_relay.Batcher.Attempt.{Inv}
use archive_relay.Batcher.Final.{
  Live, Over, Tally, left, attempt-Live, stage-Live, receive-Live, serve_flush-Live,
  retry_fires-Live, final_flush-Over,
}

stops-Tally :
    (m : ℕ) (conns : ℕ → Conn) (b : Batcher)
    → 0 < m
    → Live m b
    → Tally m (if b.stop_closed then final_flush conns b else b)
stops-Tally m conns b pos v =
    if-cases (Tally m) b.stop_closed (λ c. inr (final_flush-Over m conns b pos c v)) (λ _. inl v)

work-Live :
    (m : ℕ) (a : Action) (s : WorkerState) (b : Batcher) → 0 < m → Live m b → Tally m (work a s b)
unfolding work
work-Live m (receives conn) normal b pos v = inl (receive-Live m conn b.inq b v)
work-Live m (ticks conn) normal b pos v =
    inl (attempt-Live m conn _ (stage-Live m (length b.inq) b v))
work-Live m (serves conn) normal b pos v = inl (serve_flush-Live m conn b.flush_req b v)
work-Live m (serves conn) retry b pos v = inl (serve_flush-Live m conn b.flush_req b v)
work-Live m (retries conn) retry b pos v = inl (retry_fires-Live m conn b.retry_in b v)
work-Live m (stops conns) normal b pos v = stops-Tally m conns b pos v
work-Live m (stops conns) retry b pos v = stops-Tally m conns b pos v
work-Live m _ _ b pos v = inl v

work_stopped : (a : Action) (b : Batcher) → work a stopped b ≡ b
unfolding work
work_stopped (receives conn) b = refl
work_stopped (ticks conn) b = refl
work_stopped (serves conn) b = refl
work_stopped (retries conn) b = refl
work_stopped (stops conns) b = refl
work_stopped (enqueues evt) b = refl
work_stopped (requests caller) b = refl
work_stopped closes_stop b = refl

work-Tally : (m : ℕ) (a : Action) (b : Batcher) → 0 < m → Tally m b → Tally m (work a b.state b)
work-Tally m a b pos (inl v) = work-Live m a b.state b pos v
work-Tally m a b pos (inr o) =
    inr (subst Over (sym (ap (λ s. work a s b) o.over ∙ work_stopped a b)) o)

enqueue-Tally : (m : ℕ) (evt : Event) (b : Batcher) → Tally m b → Tally m (enqueue evt b).1
unfolding enqueue
enqueue-Tally m evt b (inr o) =
    if-cases (λ (r : Bool × Batcher). Tally m r.1) b.stop_closed (λ _. inr o) (λ h. cc (o.closed))
enqueue-Tally m evt b (inl v) =
    if-cases (λ (r : Bool × Batcher). Tally m r.1) b.stop_closed (λ _. inl v)
      (λ _.
        if-cases (λ (r : Bool × Batcher). Tally m r.1) (ltb (length b.inq) (capacity b.max_size))
          (λ _. inl (record { sized = v.sized; none_lost = v.none_lost; going = v.going }))
          (λ _. inl v))

request_flush-Tally :
    (m : ℕ) (caller : ℕ) (b : Batcher) → Tally m b → Tally m (request_flush caller b).1
unfolding request_flush
request_flush-Tally m caller b (inr o) =
    if-cases (λ (r : Bool × Batcher). Tally m r.1) b.stop_closed (λ _. inr o) (λ h. cc (o.closed))
request_flush-Tally m caller b (inl v) =
    if-cases (λ (r : Bool × Batcher). Tally m r.1) b.stop_closed (λ _. inl v)
      (λ _.
        if-cases (λ (r : Bool × Batcher). Tally m r.1) (ltb (length b.flush_req) flush_req_cap)
          (λ _. inl (record { sized = v.sized; none_lost = v.none_lost; going = v.going }))
          (λ _. inl v))

close-Tally : (m : ℕ) (b : Batcher) → Tally m b → Tally m (record b { stop_closed = true })
close-Tally m b (inl v) = inl (record { sized = v.sized; none_lost = v.none_lost; going = v.going })
close-Tally m b (inr o) =
    inr
      (record { closed = refl; over = o.over; counted = o.counted; all_answered = o.all_answered })

step-Tally : (m : ℕ) (a : Action) (b : Batcher) → 0 < m → Tally m b → Tally m (step a b)
unfolding step
step-Tally m (enqueues evt) b pos t = enqueue-Tally m evt b t
step-Tally m (requests caller) b pos t = request_flush-Tally m caller b t
step-Tally m closes_stop b pos t = close-Tally m b t
step-Tally m (receives conn) b pos t = work-Tally m (receives conn) b pos t
step-Tally m (ticks conn) b pos t = work-Tally m (ticks conn) b pos t
step-Tally m (serves conn) b pos t = work-Tally m (serves conn) b pos t
step-Tally m (retries conn) b pos t = work-Tally m (retries conn) b pos t
step-Tally m (stops conns) b pos t = work-Tally m (stops conns) b pos t

run-Tally : (m : ℕ) (acts : List Action) (b : Batcher) → 0 < m → Tally m b → Tally m (run acts b)
unfolding run
run-Tally m [] b pos t = t
run-Tally m (a ∷ acts) b pos t = run-Tally m acts (step a b) pos (step-Tally m a b pos t)

new_batcher-Tally :
    (m : ℕ) (has_feed : Bool) (acts : List Action)
    → 0 < m
    → Tally m (run acts (new_batcher m has_feed))
new_batcher-Tally m has_feed acts pos =
    run-Tally m acts (new_batcher m has_feed) pos
      (inl (unfold new_batcher in record { sized = refl; none_lost = refl; going = λ h. cc }))

Tally-stopped : (m : ℕ) (b : Batcher) → Tally m b → b.state ≡ stopped → Over b
Tally-stopped m b (inl v) h = absurd (v.going h)
Tally-stopped m b (inr o) h = o

Tally-Live : (m : ℕ) (b : Batcher) → Tally m b → b.state ≢ stopped → Live m b
Tally-Live m b (inl v) h = v
Tally-Live m b (inr o) h = absurd (h o.over)

-- With a batch size above 0, when the worker has stopped, whatever happened before and whatever
-- inserts failed, the number of accepted events is that of the inserted ones and of the lost ones
-- that the final flush logs, and no reply that it took is left without an answer.
pub run-stopped :
    (max_size : ℕ) (has_feed : Bool) (acts : List Action)
    → 0 < max_size
    → (run acts (new_batcher max_size has_feed)).state ≡ stopped
    → let b = run acts (new_batcher max_size has_feed) in
      (length b.accepted ≡ length b.sent + b.events_lost) × (b.replies ≡ [])
run-stopped max_size has_feed acts pos h =
    let b = run acts (new_batcher max_size has_feed) in
    let o = Tally-stopped max_size b (new_batcher-Tally max_size has_feed acts pos) h in
    let count = length-Conserved b (run-conserved max_size has_feed acts) in
    (omega (arith, o.counted), o.all_answered)

-- What a flush that stores every chunk changes.
abbrev StoresAll : (ℕ → Conn) → Type 0
StoresAll conns = (i : ℕ) (evts : List Event) → flush_context (conns i) evts ≡ true

abbrev Same : Batcher → Batcher → Type 0
Same b b' = (b'.events_lost ≡ b.events_lost) × (b'.accepted ≡ b.accepted)

final_stage-Same : (b : Batcher) → Same b (final_stage b)
unfolding final_stage stage
final_stage-Same b = if-cases (Same b) (is_empty b.pending) (λ _. (refl, refl)) (λ _. (refl, refl))

final_loop-Same :
    (conns : ℕ → Conn) (fuel i : ℕ) (b : Batcher)
    → StoresAll conns
    → Same b (final_loop conns fuel i b)
unfolding final_loop reply_all sent_one
final_loop-Same conns zero i b h = (refl, refl)
final_loop-Same conns (suc fuel) i b h =
    let b' = final_stage b in
    let same = final_stage-Same b in
    if-cases (Same b) (is_empty b'.pending) (λ _. same)
      (λ _.
        if-cases (Same b) (sends_chunk (conns i) b')
          (λ _.
            let rest = final_loop-Same conns fuel (i + 1) (sent_one b') h in
            (rest.0 ∙ same.0, rest.1 ∙ same.1))
          (λ e. absurd (cc (h i (take (chunk_size b') b'.pending)))))

stops-final_flush :
    (conns : ℕ → Conn) (s : WorkerState) (b : Batcher)
    → s ≢ stopped
    → b.stop_closed ≡ true
    → work (stops conns) s b ≡ final_flush conns b
unfolding work
stops-final_flush conns normal b n e = rw e refl
stops-final_flush conns retry b n e = rw e refl
stops-final_flush conns stopped b n e = absurd (n refl)

length-nil : (l : List Event) → length l ≡ 0 → l ≡ []
length-nil [] h = refl
length-nil (x ∷ l) h = absurd (omega arith)

-- With a batch size above 0, when the stop is closed and every insert of the final flush succeeds,
-- the worker stops with all the accepted events inserted, in the order of their acceptance, and the
-- final flush accepts none itself.
pub step_stops-all :
    (max_size : ℕ) (has_feed : Bool) (acts : List Action) (conns : ℕ → Conn)
    → 0 < max_size
    → ((i : ℕ) (evts : List Event) → flush_context (conns i) evts ≡ true)
    → (run acts (new_batcher max_size has_feed)).state ≢ stopped
    → (run acts (new_batcher max_size has_feed)).stop_closed ≡ true
    → let b = run acts (new_batcher max_size has_feed) in
      let b' = step (stops conns) b in
      (b'.state ≡ stopped) × (b'.sent ≡ b'.accepted) × (b'.accepted ≡ b.accepted)
unfolding step final_flush
step_stops-all max_size has_feed acts conns pos all n closed =
    let b0 = new_batcher max_size has_feed in
    let b = run acts b0 in
    let b' = final_flush conns b in
    let v = step-Inv (stops conns) b (run-Inv acts b0 (new_batcher-Inv max_size has_feed)) in
    let goes = stops-final_flush conns b.state b n closed in
    let live = Tally-Live max_size b (new_batcher-Tally max_size has_feed acts pos) n in
    let o = final_flush-Over max_size conns b pos closed live in
    let same = final_loop-Same conns _ 0 (record b { state = stopped }) all in
    let kept : b'.accepted ≡ b'.sent ++ (b'.pending ++ (b'.buf ++ b'.inq)) =
      (subst Inv goes v).conserved in
    let none_left : left b' ≡ 0 = sym o.counted ∙ same.0 ∙ live.none_lost in
    let no_pending : b'.pending ≡ [] = length-nil b'.pending (omega arith) in
    let no_buf : b'.buf ≡ [] = length-nil b'.buf (omega arith) in
    let no_inq : b'.inq ≡ [] = length-nil b'.inq (omega arith) in
    let sent : b'.sent ≡ b'.accepted =
      sym (append-nil b'.sent)
      ∙ sym (
          kept
          ∙ ap (λ (t : List Event). b'.sent ++ t)
              (ap (λ (p : List Event). p ++ (b'.buf ++ b'.inq)) no_pending
                ∙ ap (λ (p : List Event). p ++ b'.inq) no_buf
                ∙ no_inq)) in
    subst (λ (x : Batcher). (x.state ≡ stopped) × (x.sent ≡ x.accepted) × (x.accepted ≡ b.accepted))
      (sym goes) (o.over, sent, same.1)
