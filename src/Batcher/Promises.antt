-- ===== src/Batcher/Promises.antt =====
-- internal/store/batcher.go: what one attempt owes the replies that wait for it.
use archive_relay.Prelude.{
  ℕ, ◌+◌, ◌≤◌, ◌≡◌, refl, ap, true, false, ◌&&◌, List, [], ◌∷◌, map, length, take, length-append,
  length-take, length-drop, ltb, if-cases, arith, All, All-append,
}
use archive_relay.Batcher.{
  Batcher, Conn, Reply, Answer, answer_with, reply_all, is_empty, stage, chunk_size, sent_one,
  sends_chunk, arm, rest_or_normal, next_snapshot, send_failed, attempt,
}
use archive_relay.Batcher.Attempt.{is_empty-nil}

-- Each of the replies was asked for when at most `n` events had been accepted.
abbrev pub Upto : ℕ → List Reply → Type 0
Upto n = All (λ r. r.asked ≤ n)

-- Each nil answer is to a request that covers at most `n` events.
abbrev pub Kept : ℕ → List Answer → Type 0
Kept n = All (λ a. a.flushed ≡ true → a.reply.asked ≤ n)

pub Upto-mono : (m n : ℕ) (rs : List Reply) → m ≤ n → Upto m rs → Upto n rs
Upto-mono m n [] h u = tt
Upto-mono m n (r ∷ rs) h u = (omega (arith, u.0), Upto-mono m n rs h u.1)

pub Kept-mono : (m n : ℕ) (as' : List Answer) → m ≤ n → Kept m as' → Kept n as'
Kept-mono m n [] h k = tt
Kept-mono m n (a ∷ rest) h k = (λ e. omega (arith, k.0 e), Kept-mono m n rest h k.1)

pub Kept-yes : (n : ℕ) (rs : List Reply) → Upto n rs → Kept n (map (answer_with true) rs)
Kept-yes n [] u = tt
Kept-yes n (r ∷ rs) u = (λ _. u.0, Kept-yes n rs u.1)

pub Kept-no : (n : ℕ) (rs : List Reply) → Kept n (map (answer_with false) rs)
Kept-no n [] = tt
Kept-no n (r ∷ rs) = (λ e. cc, Kept-no n rs)

-- The promises between two rounds of the worker.
pub record Promises (b : Batcher) : Type 0 where
  pub requested : Upto (length b.accepted) b.flush_req
  pub waiting : Upto (length b.sent + length b.pending + b.queued) b.replies
  pub answered : Kept (length b.sent) b.answers

pub length-stage :
    (n : ℕ) (b : Batcher) → n ≤ length b.inq → length (stage n b).pending ≡ length b.buf + n
unfolding stage
length-stage n b h = omega (arith, length-append b.buf (take n b.inq), length-take n b.inq)

pub length-sent_one :
    (b : Batcher)
    → (length (sent_one b).sent + length (sent_one b).pending ≡ length b.sent + length b.pending)
      × (length b.sent ≤ length (sent_one b).sent)
unfolding sent_one
length-sent_one b =
    let k = chunk_size b in
    let app = length-append b.sent (take k b.pending) in
    let tk = length-take k b.pending in
    let dr = length-drop k b.pending in (omega (arith, app, tk, dr), omega (arith, app))

rest_or_normal-Promises :
    (b : Batcher)
    → (is_empty b.pending ≡ true → b.queued ≡ 0)
    → Promises b
    → Promises (rest_or_normal b)
unfolding rest_or_normal arm reply_all
rest_or_normal-Promises b done p =
    if-cases Promises (is_empty b.pending)
      (λ e.
        let none_left : length b.pending ≡ 0 = ap length (is_empty-nil b.pending e) in
        record {
          requested = p.requested;
          waiting = tt;
          answered = All-append _ b.answers (map (answer_with true) b.replies) p.answered (
              Kept-yes (length b.sent) b.replies
                (Upto-mono _ (length b.sent) b.replies (omega (arith, done e)) p.waiting));
        })
      (λ _. record { requested = p.requested; waiting = p.waiting; answered = p.answered })

next_snapshot-Promises :
    (b : Batcher) → b.queued ≤ length b.inq → Promises b → Promises (next_snapshot b)
unfolding next_snapshot stage
next_snapshot-Promises b q p =
    if-cases Promises (is_empty b.pending && ltb 0 b.queued)
      (λ h.
        let e : length b.pending ≡ 0 = ap length (is_empty-nil b.pending (ground arith)) in
        rest_or_normal-Promises (record (stage b.queued b) { queued = 0 }) (λ _. refl)
          (record {
            requested = unfold stage in p.requested;
            waiting =
                Upto-mono _ _ b.replies (omega (arith, length-stage b.queued b q, e)) p.waiting;
            answered = unfold stage in p.answered;
          }))
      (λ h. rest_or_normal-Promises b (λ e. ground arith) p)

pub attempt-Promises :
    (conn : Conn) (b : Batcher) → b.queued ≤ length b.inq → Promises b → Promises (attempt conn b)
unfolding attempt sent_one
attempt-Promises conn b q p =
    if-cases Promises (is_empty b.pending) (λ _. next_snapshot-Promises b q p)
      (λ e.
        if-cases Promises (sends_chunk conn b)
          (λ _.
            let (same, more) = length-sent_one b in
            next_snapshot-Promises (record (sent_one b) { fails = 0 }) (unfold sent_one in q)
              (record {
                requested = unfold sent_one in p.requested;
                waiting = Upto-mono _ _ b.replies (omega (arith, same)) p.waiting;
                answered = Kept-mono _ _ b.answers more p.answered;
              }))
          (λ _. send_failed-Promises))
  where
    send_failed-Promises : Promises (send_failed b)
    send_failed-Promises =
        unfold send_failed reply_all arm in
        record {
          requested = p.requested;
          waiting = tt;
          answered =
              All-append _ b.answers (map (answer_with false) b.replies) p.answered
                (Kept-no (length b.sent) b.replies);
        }
