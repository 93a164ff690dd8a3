-- ===== src/Feed/Account.antt =====
-- internal/store/feed.go: what becomes of the events that the feed writer is offered.
use archive_relay.Prelude.{
  ℕ, zero, suc, ◌+◌, ◌<◌, ◌≤◌, ◌≡◌, refl, sym, ap, ◌∙◌, Bool, true, false, List, [], ◌∷◌, ◌++◌,
  append_assoc, append-nil, length, length-append, All, All-append, is_nil, ltb, leb, if◌then◌else◌,
  if-cases, arith,
}
use archive_relay.Nostr.{Event}
use archive_relay.Feed.{
  feed_batch_max, feed_queue_cap, FeedWriter, new_feed_writer, offer, flush_feed, receive_event,
  drain_feed, stop_feed, FeedAction, offers, receives, ticks, stops, run_feed, run_all,
}

-- The rows of the batches, in order.
abbrev pub rows : List (Bool × List Event) → List Event
rows [] = []
rows (batch ∷ batches) = batch.1 ++ rows batches

abbrev pub Sized : Bool × List Event → Type 0
Sized batch = (0 < length batch.1) × (length batch.1 ≤ feed_batch_max)

pub record IsCounted (w : FeedWriter) : Type 0 where
  pub queue : length w.inq ≤ feed_queue_cap
  pub buffer : length w.buf < feed_batch_max
  pub handed : w.accepted ≡ rows w.batches ++ (w.buf ++ w.inq)
  pub counted : w.offered ≡ length w.accepted + w.drops + w.reported
  pub sized : All Sized w.batches

rows-append : (xs ys : List (Bool × List Event)) → rows (xs ++ ys) ≡ rows xs ++ rows ys
rows-append [] ys = refl
rows-append (x ∷ xs) ys =
    ap (λ l. x.1 ++ l) (rows-append xs ys) ∙ sym (append_assoc x.1 (rows xs) (rows ys))

length-is_nil : (l : List Event) → is_nil l ≡ (if ltb 0 (length l) then false else true)
length-is_nil [] = refl
length-is_nil (e ∷ l) = ground arith

-- A flush may find a full buffer.
record IsFlushable (w : FeedWriter) : Type 0 where
  queue : length w.inq ≤ feed_queue_cap
  buffer : length w.buf ≤ feed_batch_max
  handed : w.accepted ≡ rows w.batches ++ (w.buf ++ w.inq)
  counted : w.offered ≡ length w.accepted + w.drops + w.reported
  sized : All Sized w.batches

flush_feed-IsCounted :
    (sent : Bool) (w : FeedWriter) → IsFlushable w → IsCounted (flush_feed sent w)
unfolding flush_feed
flush_feed-IsCounted sent w i =
    if-cases IsCounted (is_nil w.buf)
      (λ h. record {
        queue = i.queue;
        buffer = ground (arith, length-is_nil w.buf);
        handed = i.handed;
        counted = i.counted;
        sized = i.sized;
      })
      (λ h. record {
        queue = i.queue;
        buffer = omega arith;
        handed =
            i.handed
            ∙ sym (append_assoc (rows w.batches) w.buf w.inq)
            ∙ ap (λ l. l ++ w.inq)
                (ap (λ l. rows w.batches ++ l) (sym (append-nil w.buf))
                  ∙ sym (rows-append w.batches ((sent, w.buf) ∷ [])));
        counted = omega (arith, i.counted);
        sized =
            All-append Sized w.batches ((sent, w.buf) ∷ []) i.sized
              ((ground (arith, length-is_nil w.buf), i.buffer), tt);
      })

receive_event-IsCounted :
    (sent : Bool) (q : List Event) (w : FeedWriter)
    → w.inq ≡ q
    → IsCounted w
    → IsCounted (receive_event sent q w)
unfolding receive_event
receive_event-IsCounted sent [] w e i = i
receive_event-IsCounted sent (evt ∷ rest) w e i =
    let w' : FeedWriter = record w { inq = rest; buf = w.buf ++ evt ∷ [] } in
    let one_more = length-append w.buf (evt ∷ []) in
    let shorter = ap length e in
    let handed : w.accepted ≡ rows w.batches ++ ((w.buf ++ evt ∷ []) ++ rest) =
      i.handed
      ∙ ap (λ l. rows w.batches ++ l)
          (ap (λ l. w.buf ++ l) e ∙ sym (append_assoc w.buf (evt ∷ []) rest)) in
    if-cases IsCounted (leb feed_batch_max (length w'.buf))
      (λ h. flush_feed-IsCounted sent w' (record {
        queue = omega (arith, shorter, i.queue);
        buffer = omega (arith, one_more, i.buffer);
        handed = handed;
        counted = i.counted;
        sized = i.sized;
      }))
      (λ h. record {
        queue = omega (arith, shorter, i.queue);
        buffer = ground arith;
        handed = handed;
        counted = i.counted;
        sized = i.sized;
      })

flushable : (w : FeedWriter) → IsCounted w → IsFlushable w
flushable w i = record {
  queue = i.queue;
  buffer = omega (arith, i.buffer);
  handed = i.handed;
  counted = i.counted;
  sized = i.sized;
}

drain_feed-IsCounted :
    (sends : ℕ → Bool) (fuel : ℕ) (w : FeedWriter)
    → IsCounted w
    → IsCounted (drain_feed sends fuel w)
unfolding drain_feed
drain_feed-IsCounted sends zero w i = i
drain_feed-IsCounted sends (suc fuel) w i =
    drain_feed-IsCounted sends fuel _ (receive_event-IsCounted (sends (suc fuel)) w.inq w refl i)

finished : (w : FeedWriter) → IsCounted w → IsCounted (record w { done = true })
finished w i = record {
  queue = i.queue;
  buffer = i.buffer;
  handed = i.handed;
  counted = i.counted;
  sized = i.sized;
}

offer-IsCounted : (evt : Event) (w : FeedWriter) → IsCounted w → IsCounted (offer evt w)
unfolding offer
offer-IsCounted evt w i =
    if-cases IsCounted (ltb (length w.inq) feed_queue_cap)
      (λ h. record {
        queue = ground (arith, length-append w.inq (evt ∷ []));
        buffer = i.buffer;
        handed =
            ap (λ l. l ++ evt ∷ []) i.handed
            ∙ append_assoc (rows w.batches) (w.buf ++ w.inq) (evt ∷ [])
            ∙ ap (λ l. rows w.batches ++ l) (append_assoc w.buf w.inq (evt ∷ []));
        counted = omega (arith, i.counted, length-append w.accepted (evt ∷ []));
        sized = i.sized;
      })
      (λ h. record {
        queue = i.queue;
        buffer = i.buffer;
        handed = i.handed;
        counted = omega (arith, i.counted);
        sized = i.sized;
      })

run_feed-IsCounted : (a : FeedAction) (w : FeedWriter) → IsCounted w → IsCounted (run_feed a w)
unfolding run_feed stop_feed
run_feed-IsCounted (offers evt) w i = offer-IsCounted evt w i
run_feed-IsCounted (receives sent) w i =
    if-cases IsCounted w.done (λ _. i) (λ _. receive_event-IsCounted sent w.inq w refl i)
run_feed-IsCounted (ticks sent) w i =
    if-cases IsCounted w.done (λ _. i) (λ _. flush_feed-IsCounted sent w (flushable w i))
run_feed-IsCounted (stops sends) w i =
    if-cases IsCounted w.done (λ _. i)
      (λ _.
        let drained = drain_feed sends (length w.inq) w in
        finished _ (
          flush_feed-IsCounted (sends 0) drained
            (flushable drained (drain_feed-IsCounted sends (length w.inq) w i))))

run_all-IsCounted :
    (actions : List FeedAction) (w : FeedWriter) → IsCounted w → IsCounted (run_all actions w)
unfolding run_all
run_all-IsCounted [] w i = i
run_all-IsCounted (a ∷ actions) w i =
    run_all-IsCounted actions (run_feed a w) (run_feed-IsCounted a w i)

-- Whatever is offered, received, flushed and stopped in whatever order: each offer was taken by the
-- channel or counted as a drop; the events that it took stand, in their order and each once, in the
-- batches, the buffer and the channel; the channel holds at most 20000 events, the buffer fewer than
-- 10000 and each batch between 1 and 10000.
pub run_all-new : (actions : List FeedAction) → IsCounted (run_all actions new_feed_writer)
unfolding new_feed_writer
run_all-new actions =
    run_all-IsCounted actions
      (record {
        inq = [];
        done = false;
        drops = 0;
        buf = [];
        reported = 0;
        accepted = [];
        offered = 0;
        batches = [];
      })
      (record {
        queue = omega arith;
        buffer = omega arith;
        handed = refl;
        counted = refl;
        sized = tt;
      })
