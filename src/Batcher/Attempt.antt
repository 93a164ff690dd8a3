-- ===== src/Batcher/Attempt.antt =====
-- internal/store/batcher.go: what one attempt of the worker keeps.
use archive_relay.Prelude.{
  ℕ, ◌≤◌, ◌≡◌, ◌≢◌, refl, sym, ap, subst, ◌∙◌, true, false, ◌&&◌, none, some, List, [], ◌∷◌, ◌++◌,
  append_assoc, length, length-append, ◌+◌, take, drop, take-append-drop, ltb, if-cases, Bool-cases,
  inl, inr, arith,
}
use archive_relay.Nostr.{Event}
use archive_relay.Batcher.{
  WorkerState, normal, retry, stopped, Batcher, Conn, reply_all, is_empty, stage, chunk_size,
  sent_one, sends_chunk, arm, rest_or_normal, next_snapshot, send_failed, attempt,
}

abbrev pub Conserved : Batcher → Type 0
Conserved b = b.accepted ≡ b.sent ++ (b.pending ++ (b.buf ++ b.inq))

-- What holds between two rounds of the worker, by its state.
abbrev pub Shape : WorkerState → Batcher → Type 0
Shape normal b = (b.pending ≡ []) × (b.replies ≡ []) × (b.queued ≡ 0) × (b.retry_in ≡ none)
Shape retry b =
    (is_empty b.pending ≡ false) × (b.buf ≡ []) × (b.queued ≤ length b.inq) × (b.retry_in ≢ none)
Shape stopped b = b.stop_closed ≡ true

pub record Inv (b : Batcher) : Type 0 where
  pub conserved : Conserved b
  pub shaped : Shape b.state b

-- What attempt is called with.
pub record Ready (b : Batcher) : Type 0 where
  pub conserved : Conserved b
  pub staged : b.buf ≡ []
  pub covered : b.queued ≤ length b.inq
  pub retrying : is_empty b.pending ≡ false → b.state ≡ retry

pub length-Conserved :
    (b : Batcher)
    → Conserved b
    → length b.accepted ≡ length b.sent + length b.pending + length b.buf + length b.inq
length-Conserved b h = omega (
  arith,
  ap length h,
  length-append b.sent (b.pending ++ (b.buf ++ b.inq)),
  length-append b.pending (b.buf ++ b.inq),
  length-append b.buf b.inq,
)

pub is_empty-nil : (l : List Event) → is_empty l ≡ true → l ≡ []
is_empty-nil [] h = refl
is_empty-nil (x ∷ l) h = cc

pub stage-Conserved : (n : ℕ) (b : Batcher) → b.pending ≡ [] → Conserved b → Conserved (stage n b)
unfolding stage
stage-Conserved n b e h =
    h
    ∙ ap (λ (t : List Event). b.sent ++ t)
        (ap (λ (p : List Event). p ++ (b.buf ++ b.inq)) e
          ∙ ap (λ (t : List Event). b.buf ++ t) (sym (take-append-drop n b.inq))
          ∙ sym (append_assoc b.buf (take n b.inq) (drop n b.inq)))

pub sent_one-Conserved : (b : Batcher) → Conserved b → Conserved (sent_one b)
unfolding sent_one
sent_one-Conserved b h =
    let k = chunk_size b in
    let rest = b.buf ++ b.inq in
    h
    ∙ ap (λ (t : List Event). b.sent ++ t)
        (ap (λ (t : List Event). t ++ rest) (sym (take-append-drop k b.pending))
          ∙ append_assoc (take k b.pending) (drop k b.pending) rest)
    ∙ sym (append_assoc b.sent (take k b.pending) (drop k b.pending ++ rest))

pub stage-Ready :
    (n : ℕ) (b : Batcher)
    → b.pending ≡ []
    → b.queued ≤ length (drop n b.inq)
    → Conserved b
    → Ready (stage n b)
stage-Ready n b e q h = record {
  conserved = stage-Conserved n b e h;
  staged = unfold stage in refl;
  covered = unfold stage in q;
  retrying = unfold stage in λ some_left. ground arith;
}

pub rest_or_normal-Inv :
    (b : Batcher) → Ready b → (is_empty b.pending ≡ true → b.queued ≡ 0) → Inv (rest_or_normal b)
unfolding rest_or_normal arm reply_all
rest_or_normal-Inv b r done = elim (Bool-cases (is_empty b.pending)) [
  | inl e ↦
      rw e (record {
        conserved = r.conserved;
        shaped = (is_empty-nil b.pending e, refl, done e, refl);
      })
  | inr e ↦ rw e (record {
    conserved = r.conserved;
    shaped =
        subst (λ s. Shape s (record b { retry_in = some 0 })) (sym (r.retrying e))
          (e, r.staged, r.covered, λ h. cc);
  })
]

pub next_snapshot-Inv : (b : Batcher) → Ready b → Inv (next_snapshot b)
unfolding next_snapshot
next_snapshot-Inv b r =
    if-cases Inv (is_empty b.pending && ltb 0 b.queued)
      (λ h.
        let e : b.pending ≡ [] = is_empty-nil b.pending (ground arith) in
        let s = stage-Ready b.queued (record b { queued = 0 }) e (omega arith) r.conserved in
        rest_or_normal-Inv (record (stage b.queued b) { queued = 0 }) (unfold stage in s)
          (λ _. refl))
      (λ h. rest_or_normal-Inv b r (λ e. ground arith))

pub send_failed-Inv : (b : Batcher) → Ready b → is_empty b.pending ≡ false → Inv (send_failed b)
unfolding send_failed reply_all arm
send_failed-Inv b r e = record {
  conserved = r.conserved;
  shaped =
      subst (λ s. Shape s (send_failed b)) (sym (r.retrying e)) (e, r.staged, omega arith, λ h. cc);
}

pub sent_one-Ready :
    (b : Batcher) → Ready b → is_empty b.pending ≡ false → Ready (record (sent_one b) { fails = 0 })
sent_one-Ready b r e = record {
  conserved = sent_one-Conserved b r.conserved;
  staged = unfold sent_one in r.staged;
  covered = unfold sent_one in r.covered;
  retrying = unfold sent_one in λ _. r.retrying e;
}

pub attempt-Inv : (conn : Conn) (b : Batcher) → Ready b → Inv (attempt conn b)
unfolding attempt
attempt-Inv conn b r =
    if-cases Inv (is_empty b.pending) (λ _. next_snapshot-Inv b r)
      (λ e.
        if-cases Inv (sends_chunk conn b) (λ _. next_snapshot-Inv _ (sent_one-Ready b r e))
          (λ _. send_failed-Inv b r e))
