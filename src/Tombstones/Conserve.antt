-- ===== src/Tombstones/Conserve.antt =====
-- internal/store/tombstone.go: where the tombstones are between retire and the inserts.
use archive_relay.Prelude.{
  ℕ, zero, suc, ◌+◌, ◌≤◌, ◌≡◌, refl, sym, ap, ◌∙◌, Bool, not, ◌&&◌, List, [], ◌∷◌, ◌++◌, length,
  length-append, length-take, length-drop, take, drop, take-append-drop, append_assoc, ltb, leb,
  nat_eq, if-cases, arith,
}
use archive_relay.Tombstones.{
  TombstoneReq, TombstoneWriter, batch_max, retained_max, in_cap, reload_every,
  new_tombstone_writer, push, report_drops, append_req, chunk, inserted_one, flush_loop, flush,
  Reload, reload, receive_req, reload_due, drain, finish, shut_down, Action, pushes, receives,
  ticks, closes_stop, stops, work, step, run,
}

pub record Kept (w : TombstoneWriter) : Type 0 where
  pub counted :
      length w.accepted ≡ length w.inserted + length w.buf + length w.inq + w.dropped + w.reported
  pub ordered : w.dropped + w.reported ≡ 0 → w.accepted ≡ w.inserted ++ (w.buf ++ w.inq)
  pub bounded : length w.buf ≤ retained_max

report_drops-Kept : (w : TombstoneWriter) → Kept w → Kept (report_drops w)
unfolding report_drops
report_drops-Kept w k = record {
  counted = omega (arith, k.counted);
  ordered = λ h. k.ordered (omega arith);
  bounded = k.bounded;
}

inserted_one-Kept : (w : TombstoneWriter) → Kept w → Kept (inserted_one w)
unfolding inserted_one
inserted_one-Kept w k =
    let n = chunk w in
    record {
      counted = omega (
        arith,
        k.counted,
        length-append w.inserted (take n w.buf),
        length-take n w.buf,
        length-drop n w.buf,
      );
      ordered = λ h.
          k.ordered h
          ∙ ap (λ (t : List TombstoneReq). w.inserted ++ t)
              (ap (λ (t : List TombstoneReq). t ++ w.inq) (sym (take-append-drop n w.buf))
                ∙ append_assoc (take n w.buf) (drop n w.buf) w.inq)
          ∙ sym (append_assoc w.inserted (take n w.buf) (drop n w.buf ++ w.inq));
      bounded = omega (arith, k.bounded, length-drop n w.buf);
    }

flush_loop-Kept :
    (sends : ℕ → Bool) (fuel i : ℕ) (w : TombstoneWriter)
    → Kept w
    → Kept (flush_loop sends fuel i w)
unfolding flush_loop
flush_loop-Kept sends zero i w k = k
flush_loop-Kept sends (suc fuel) i w k =
    if-cases Kept (nat_eq (length w.buf) 0)
      (λ _. record { counted = k.counted; ordered = k.ordered; bounded = k.bounded })
      (λ _.
        if-cases Kept (sends i)
          (λ _. flush_loop-Kept sends fuel (i + 1) (inserted_one w) (inserted_one-Kept w k))
          (λ _. record { counted = k.counted; ordered = k.ordered; bounded = k.bounded }))

flush-Kept : (sends : ℕ → Bool) (w : TombstoneWriter) → Kept w → Kept (flush sends w)
unfolding flush
flush-Kept sends w k =
    flush_loop-Kept sends (length w.buf + 1) 0 (report_drops w) (report_drops-Kept w k)

append_req-Kept :
    (req : TombstoneReq) (rest : List TombstoneReq) (w : TombstoneWriter)
    → w.inq ≡ req ∷ rest
    → Kept w
    → Kept (append_req req (record w { inq = rest }))
unfolding append_req
append_req-Kept req rest w e k =
    let count : length w.inq ≡ length rest + 1 = omega (arith, ap length e) in
    if-cases Kept (nat_eq (length w.buf) retained_max)
      (λ _. record {
        counted = omega (arith, k.counted);
        ordered = λ h. absurd (omega arith);
        bounded = k.bounded;
      })
      (λ h. record {
        counted = omega (arith, k.counted, length-append w.buf (req ∷ []));
        ordered = λ none_dropped.
            k.ordered none_dropped
            ∙ ap (λ (t : List TombstoneReq). w.inserted ++ t)
                (ap (λ (t : List TombstoneReq). w.buf ++ t) e
                  ∙ sym (append_assoc w.buf (req ∷ []) rest));
        bounded = ground (arith, k.bounded, length-append w.buf (req ∷ []));
      })

receive_req-Kept :
    (sends : ℕ → Bool) (q : List TombstoneReq) (w : TombstoneWriter)
    → w.inq ≡ q
    → Kept w
    → Kept (receive_req sends q w)
unfolding receive_req
receive_req-Kept sends [] w e k = k
receive_req-Kept sends (req ∷ rest) w e k =
    let w' = append_req req (record w { inq = rest }) in
    let k' = append_req-Kept req rest w e k in
    if-cases Kept (leb batch_max (length w'.buf) && not w'.retrying) (λ _. flush-Kept sends w' k')
      (λ _. k')

reload_due-Kept : (r : Reload) (w : TombstoneWriter) → Kept w → Kept (reload_due r w)
unfolding reload_due reload
reload_due-Kept r w k =
    if-cases Kept (w.dirty && leb (w.last_reload + reload_every) r.now)
      (λ _. record { counted = k.counted; ordered = k.ordered; bounded = k.bounded }) (λ _. k)

drain-Kept :
    (sends : ℕ → ℕ → Bool) (fuel : ℕ) (w : TombstoneWriter) → Kept w → Kept (drain sends fuel w)
unfolding drain
drain-Kept sends zero w k = k
drain-Kept sends (suc fuel) w k =
    drain-Kept sends fuel (receive_req (sends (suc fuel)) w.inq w)
      (receive_req-Kept (sends (suc fuel)) w.inq w refl k)

shut_down-Kept :
    (sends : ℕ → ℕ → Bool) (r : Reload) (w : TombstoneWriter) → Kept w → Kept (shut_down sends r w)
unfolding shut_down finish reload
shut_down-Kept sends r w k =
    let w0 = drain sends (length w.inq) w in
    let k' = flush-Kept (sends 0) w0 (drain-Kept sends (length w.inq) w k) in
    if-cases Kept (flush (sends 0) w0).dirty
      (λ _. record { counted = k'.counted; ordered = k'.ordered; bounded = k'.bounded })
      (λ _. record { counted = k'.counted; ordered = k'.ordered; bounded = k'.bounded })

work-Kept : (a : Action) (w : TombstoneWriter) → Kept w → Kept (work a w)
unfolding work
work-Kept (receives sends r) w k = reload_due-Kept r _ (receive_req-Kept sends w.inq w refl k)
work-Kept (ticks sends r) w k = reload_due-Kept r _ (flush-Kept sends w k)
work-Kept (stops sends r) w k =
    if-cases Kept w.stop_closed (λ _. shut_down-Kept sends r w k) (λ _. k)
work-Kept (pushes req) w k = k
work-Kept closes_stop w k = k

push-Kept : (req : TombstoneReq) (w : TombstoneWriter) → Kept w → Kept (push req w).1
unfolding push
push-Kept req w k =
    let w' = record w { inq = w.inq ++ req ∷ []; accepted = w.accepted ++ req ∷ [] } in
    let ordered : w.dropped + w.reported ≡ 0 → w'.accepted ≡ w'.inserted ++ (w'.buf ++ w'.inq) =
      (λ h. rw (k.ordered h) (simp append_assoc)) in
    if-cases (λ (r : Bool × TombstoneWriter). Kept r.1) w.stop_closed (λ _. k)
      (λ _.
        if-cases (λ (r : Bool × TombstoneWriter). Kept r.1) (ltb (length w.inq) in_cap)
          (λ _. record {
            counted = omega (
              arith,
              k.counted,
              length-append w.accepted (req ∷ []),
              length-append w.inq (req ∷ []),
            );
            ordered = ordered;
            bounded = k.bounded;
          })
          (λ _. k))

step-Kept : (a : Action) (w : TombstoneWriter) → Kept w → Kept (step a w)
unfolding step
step-Kept (pushes req) w k = push-Kept req w k
step-Kept closes_stop w k = record { counted = k.counted; ordered = k.ordered; bounded = k.bounded }
step-Kept (receives sends r) w k = if-cases Kept w.done (λ _. k) (λ _. work-Kept _ w k)
step-Kept (ticks sends r) w k = if-cases Kept w.done (λ _. k) (λ _. work-Kept _ w k)
step-Kept (stops sends r) w k = if-cases Kept w.done (λ _. k) (λ _. work-Kept _ w k)

run-Kept : (acts : List Action) (w : TombstoneWriter) → Kept w → Kept (run acts w)
unfolding run
run-Kept [] w k = k
run-Kept (a ∷ acts) w k = run-Kept acts (step a w) (step-Kept a w k)

new_tombstone_writer-Kept : Kept new_tombstone_writer
unfolding new_tombstone_writer
new_tombstone_writer-Kept = record { counted = refl; ordered = λ h. refl; bounded = omega arith }

-- After any interleaving, whatever inserts and reloads fail, the number of accepted tombstones is
-- that of the inserted, buffered and queued ones and of those counted as dropped, and the buffer
-- holds at most three batches.
pub run-counted :
    (acts : List Action)
    → let w = run acts new_tombstone_writer in
      (length w.accepted ≡ length w.inserted + length w.buf + length w.inq + w.dropped + w.reported)
      × (length w.buf ≤ retained_max)
run-counted acts =
    let k = run-Kept acts new_tombstone_writer new_tombstone_writer-Kept in (k.counted, k.bounded)

-- As long as no tombstone was dropped, the accepted ones are, in order and each once, the inserted,
-- the buffered and the queued ones, whatever inserts and reloads fail.
pub run-ordered :
    (acts : List Action)
    → (run acts new_tombstone_writer).dropped + (run acts new_tombstone_writer).reported ≡ 0
    → let w = run acts new_tombstone_writer in w.accepted ≡ w.inserted ++ (w.buf ++ w.inq)
run-ordered acts = (run-Kept acts new_tombstone_writer new_tombstone_writer-Kept).ordered
