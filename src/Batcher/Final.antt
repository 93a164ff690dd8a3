-- ===== src/Batcher/Final.antt =====
-- internal/store/batcher.go: a worker that goes on and one that the final flush has ended.
use archive_relay.Prelude.{
  ℕ, zero, suc, ◌+◌, ◌<◌, ◌≡◌, ◌≢◌, ◌⊎◌, refl, sym, ap, ◌∙◌, true, false, ◌&&◌, Option, none, some,
  List, [], ◌∷◌, ◌++◌, length, take, length-append, length-take, length-drop, ltb, leb, if-cases,
  arith,
}
use archive_relay.Nostr.{Event}
use archive_relay.Batcher.{
  stopped, Batcher, Conn, Reply, reply_all, is_empty, stage, chunk_size, sent_one, sends_chunk, arm,
  rest_or_normal, next_snapshot, send_failed, attempt, receive, serve_flush, retry_fires,
  final_stage, final_loop, final_flush,
}
use archive_relay.Batcher.Attempt.{is_empty-nil}

pub record Live (m : ℕ) (b : Batcher) : Type 0 where
  pub sized : b.max_size ≡ m
  pub none_lost : b.events_lost ≡ 0
  pub going : b.state ≢ stopped

abbrev pub left : Batcher → ℕ
left b = length b.pending + length b.buf + length b.inq

pub record Over (b : Batcher) : Type 0 where
  pub closed : b.stop_closed ≡ true
  pub over : b.state ≡ stopped
  pub counted : b.events_lost ≡ left b
  pub all_answered : b.replies ≡ []

abbrev pub Tally : ℕ → Batcher → Type 0
Tally m b = Live m b ⊎ Over b

pub stage-Live : (m n : ℕ) (b : Batcher) → Live m b → Live m (stage n b)
unfolding stage
stage-Live m n b v = record {
  sized = v.sized;
  none_lost = v.none_lost;
  going = if-cases (λ s. s ≢ stopped) (is_empty (b.buf ++ take n b.inq)) (λ _. v.going) (λ _ h. cc);
}

rest_or_normal-Live : (m : ℕ) (b : Batcher) → Live m b → Live m (rest_or_normal b)
unfolding rest_or_normal reply_all arm
rest_or_normal-Live m b v =
    if-cases (Live m) (is_empty b.pending)
      (λ _. record { sized = v.sized; none_lost = v.none_lost; going = λ h. cc })
      (λ _. record { sized = v.sized; none_lost = v.none_lost; going = v.going })

next_snapshot-Live : (m : ℕ) (b : Batcher) → Live m b → Live m (next_snapshot b)
unfolding next_snapshot
next_snapshot-Live m b v =
    let v' = stage-Live m b.queued b v in
    if-cases (Live m) (is_empty b.pending && ltb 0 b.queued)
      (λ _.
        rest_or_normal-Live m _
          (record { sized = v'.sized; none_lost = v'.none_lost; going = v'.going }))
      (λ _. rest_or_normal-Live m b v)

pub attempt-Live : (m : ℕ) (conn : Conn) (b : Batcher) → Live m b → Live m (attempt conn b)
unfolding attempt sent_one send_failed reply_all arm
attempt-Live m conn b v =
    if-cases (Live m) (is_empty b.pending) (λ _. next_snapshot-Live m b v)
      (λ _.
        if-cases (Live m) (sends_chunk conn b)
          (λ _.
            next_snapshot-Live m _
              (record { sized = v.sized; none_lost = v.none_lost; going = v.going }))
          (λ _. record { sized = v.sized; none_lost = v.none_lost; going = v.going }))

pub receive-Live :
    (m : ℕ) (conn : Conn) (q : List Event) (b : Batcher) → Live m b → Live m (receive conn q b)
unfolding receive
receive-Live m conn [] b v = v
receive-Live m conn (evt ∷ rest) b v =
    let b' = record b { inq = rest; buf = b.buf ++ evt ∷ [] } in
    let v' : Live m b' = record { sized = v.sized; none_lost = v.none_lost; going = v.going } in
    if-cases (Live m) (leb b.max_size (length (b.buf ++ evt ∷ [])))
      (λ _. attempt-Live m conn _ (stage-Live m (length rest) b' v')) (λ _. v')

pub serve_flush-Live :
    (m : ℕ) (conn : Conn) (q : List Reply) (b : Batcher) → Live m b → Live m (serve_flush conn q b)
unfolding serve_flush
serve_flush-Live m conn [] b v = v
serve_flush-Live m conn (r ∷ rest) b v =
    let b' = record b { flush_req = rest; replies = b.replies ++ r ∷ []; queued = length b.inq } in
    let v' : Live m b' = record { sized = v.sized; none_lost = v.none_lost; going = v.going } in
    let s = stage-Live m (length b.inq) b' v' in
    if-cases (Live m) (is_empty b.pending)
      (λ _.
        attempt-Live m conn _
          (record { sized = s.sized; none_lost = s.none_lost; going = s.going }))
      (λ _. attempt-Live m conn b' v')

pub retry_fires-Live :
    (m : ℕ) (conn : Conn) (armed : Option ℕ) (b : Batcher)
    → Live m b
    → Live m (retry_fires conn armed b)
unfolding retry_fires
retry_fires-Live m conn none b v = v
retry_fires-Live m conn (some delay) b v = attempt-Live m conn b v

-- A round of the final flush on a batcher with events left has a chunk to send.
final_stage-left : (b : Batcher) → left (final_stage b) ≡ left b
unfolding final_stage stage
final_stage-left b =
    if-cases (λ (x : Batcher). left x ≡ left b) (is_empty b.pending)
      (λ e.
        let none_left : length b.pending ≡ 0 = ap length (is_empty-nil b.pending e) in
        let all = length b.inq in
        omega (
          arith,
          length-append b.buf (take all b.inq),
          length-take all b.inq,
          length-drop all b.inq,
        ))
      (λ _. refl)

final_stage-empty :
    (b : Batcher) → is_empty (final_stage b).pending ≡ true → left (final_stage b) ≡ 0
unfolding final_stage stage
final_stage-empty b =
    if-cases (λ (x : Batcher). is_empty x.pending ≡ true → left x ≡ 0) (is_empty b.pending)
      (λ _ e.
        let none_left : length (b.buf ++ take (length b.inq) b.inq) ≡ 0 =
          ap length (is_empty-nil _ e) in
        omega (arith, length-drop (length b.inq) b.inq))
      (λ h e. cc)

length-nonempty : (l : List Event) → is_empty l ≡ false → 0 < length l
length-nonempty [] h = cc
length-nonempty (x ∷ l) h = omega arith

sent_one-left :
    (b : Batcher) → 0 < b.max_size → is_empty b.pending ≡ false → left (sent_one b) < left b
unfolding sent_one
sent_one-left b pos e =
    omega (arith, length-drop (chunk_size b) b.pending, length-nonempty b.pending e)

pub record Begun (b : Batcher) : Type 0 where
  pub sized : 0 < b.max_size
  pub none_lost : b.events_lost ≡ 0
  pub closed : b.stop_closed ≡ true
  pub over : b.state ≡ stopped

pub final_stage-Begun : (b : Batcher) → Begun b → Begun (final_stage b)
unfolding final_stage stage
final_stage-Begun b g =
    if-cases Begun (is_empty b.pending)
      (λ _. record { sized = g.sized; none_lost = g.none_lost; closed = g.closed; over = refl })
      (λ _. g)

final_loop-Over :
    (conns : ℕ → Conn) (fuel i : ℕ) (b : Batcher)
    → left b < fuel
    → Begun b
    → Over (final_loop conns fuel i b)
unfolding final_loop reply_all
final_loop-Over conns zero i b h g = absurd (omega arith)
final_loop-Over conns (suc fuel) i b h g =
    let b' = final_stage b in
    let g' = final_stage-Begun b g in
    if-cases Over (is_empty b'.pending)
      (λ e. record {
        closed = g'.closed;
        over = g'.over;
        counted = g'.none_lost ∙ sym (final_stage-empty b e);
        all_answered = refl;
      })
      (λ e.
        if-cases Over (sends_chunk (conns i) b')
          (λ _.
            final_loop-Over conns fuel (i + 1) (sent_one b')
              (omega (arith, sent_one-left b' g'.sized e, final_stage-left b))
              (unfold sent_one in
                record {
                  sized = g'.sized;
                  none_lost = g'.none_lost;
                  closed = g'.closed;
                  over = g'.over;
                }))
          (λ _. record { closed = g'.closed; over = g'.over; counted = refl; all_answered = refl }))

pub final_flush-Over :
    (m : ℕ) (conns : ℕ → Conn) (b : Batcher)
    → 0 < m
    → b.stop_closed ≡ true
    → Live m b
    → Over (final_flush conns b)
unfolding final_flush
final_flush-Over m conns b pos closed v =
    final_loop-Over conns _ 0 (record b { state = stopped }) (omega arith)
      (record {
        sized = omega (arith, v.sized);
        none_lost = v.none_lost;
        closed = closed;
        over = refl;
      })
