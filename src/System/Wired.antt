-- ===== src/System/Wired.antt =====
-- internal/store: what the store's writes rely on holds of its batchers and its tombstone writer.
use archive_relay.Prelude.{
  ℕ, ◌≡◌, ◌⊎◌, inl, inr, refl, sym, ap, subst, ◌∙◌, Bool, true, ◌&&◌, Option, List, [], ◌∷◌, ◌++◌,
  Memᴰ, Memᴰ-append, Memᴰ-append_last, Memᴰ-take, take-length, Bytes, length, take, take-append_le,
  nat_eq_iff, if-cases, Bool-cases, ltb, arith,
}
use mathlib.Core.List.{map-append}
use archive_relay.Nostr.{Event}
use archive_relay.Classifier.{Tier, same_tier_iff, eq_tier}
use archive_relay.Batcher
use archive_relay.Batcher.{Batcher, new_batcher, capacity, Reply, Answer, enqueues, requests}
use archive_relay.Batcher.Flush.{run-flushed}
use archive_relay.Batcher.Growth.{run-Extends, run-append}
use archive_relay.Tombstones.{TombstoneWriter, TombstoneReq, push, retire, in_cap}
use archive_relay.Store.{Backend, Version}
use archive_relay.System.{
  System, Turn, is_reply, answered, batcher_of, act, only, enqueue_tier, flush_tier, retire_in,
  retired,
}

answered-Memᴰ :
    (r : Reply) (answers : List Answer)
    → answered r answers ≡ true
    → (a : Answer) × Memᴰ a answers × (a.flushed ≡ true) × (a.reply.asked ≡ r.asked)
answered-Memᴰ r [] h = cc
answered-Memᴰ r (a ∷ answers) h = elim (Bool-cases (a.flushed && is_reply a.reply r)) [
  | inl yes' ↦ (a, Memᴰ.head refl, ground arith, ground (arith, nat_eq_iff a.reply.asked r.asked))
  | inr no' ↦ later (answered-Memᴰ r answers (rw no' at h))
]
  where
    later :
        (x : Answer) × Memᴰ x answers × (x.flushed ≡ true) × (x.reply.asked ≡ r.asked)
        → (x : Answer) × Memᴰ x (a ∷ answers) × (x.flushed ≡ true) × (x.reply.asked ≡ r.asked)
    later (x, m, f, e) = (x, Memᴰ.tail m, f, e)

module _ (max_size : ℕ) where
  -- A run goes on from where it was.
  pub batcher_of-act :
      (moves : Tier → List Batcher.Action) (t : Tier) (s : System)
      → batcher_of max_size t (act max_size moves s)
        ≡ Batcher.run (moves t) (batcher_of max_size t s)
  unfolding batcher_of
  batcher_of-act moves t s = run-append (s.history t) (moves t) (new_batcher max_size true)

  abbrev pub Accepted : Tier → Event → System → Type 0
  Accepted t evt s = Memᴰ evt (batcher_of max_size t s).accepted

  -- In ClickHouse, by some batcher.
  abbrev pub Sent : Event → System → Type 0
  Sent evt s = (t : Tier) × Memᴰ evt (batcher_of max_size t s).sent

  only_self : (t : Tier) (moves : List Batcher.Action) → only max_size t moves t ≡ moves
  only_self t moves = rw ((same_tier_iff t t).1 refl) refl

  pub enqueue_tier-Accepted :
      (t : Tier) (evt : Event) (s : System)
      → (enqueue_tier max_size t evt s).0 ≡ true
      → Accepted t evt (enqueue_tier max_size t evt s).1
  unfolding enqueue_tier
  enqueue_tier-Accepted t evt s h =
      let b = batcher_of max_size t s in
      let one = enqueues evt ∷ [] in
      subst (λ (b' : Batcher). Memᴰ evt b'.accepted)
        (sym
          (batcher_of-act (only max_size t one) t s ∙ ap (λ l. Batcher.run l b) (only_self t one)))
        (taken b h)
    where
      taken :
          (b : Batcher)
          → (Batcher.enqueue evt b).0 ≡ true
          → Memᴰ evt (Batcher.run (enqueues evt ∷ []) b).accepted
      taken b =
          unfold Batcher.enqueue Batcher.run Batcher.step in
          if-cases (λ (r : Bool × Batcher). r.0 ≡ true → Memᴰ evt r.1.accepted) b.stop_closed
            (λ _ h. cc)
            (λ _.
              if-cases (λ (r : Bool × Batcher). r.0 ≡ true → Memᴰ evt r.1.accepted)
                (ltb (length b.inq) (capacity b.max_size)) (λ _ _. Memᴰ-append_last evt b.accepted)
                (λ _ h. cc))

  -- The events accepted at the request of an answered flush are sent.
  pub flush_tier-Sent :
      (turn : Tier → System → Turn) (t : Tier) (evt : Event) (s : System)
      → Accepted t evt s
      → (flush_tier max_size turn t s).0 ≡ true
      → Sent evt (flush_tier max_size turn t s).1
  unfolding flush_tier
  flush_tier-Sent turn t evt s m h =
      let b = batcher_of max_size t s in
      let s' = (flush_tier max_size turn t s).1 in
      let b' = batcher_of max_size t s' in
      let one = only max_size t (requests s.calls ∷ []) t in
      let moves = (turn t s).moves t in
      let n = length b.accepted in
      let reply : Reply = record { caller = s.calls; asked = n } in
      let (a, found, f, e) = answered-Memᴰ reply b'.answers (ground arith) in
      let grown : b' ≡ Batcher.run (one ++ moves) b =
        (unfold batcher_of in
          run-append (s.history t ++ one) moves (new_batcher max_size true)
          ∙ ap (Batcher.run moves) (run-append (s.history t) one (new_batcher max_size true))
          ∙ sym (run-append one moves b)) in
      let (more, extended) = run-Extends (one ++ moves) b in
      let same : take a.reply.asked b'.accepted ≡ take a.reply.asked b'.sent =
        (unfold batcher_of in (run-flushed max_size true (s'.history t) a found f).1) in
      let first : b.accepted ≡ take n b'.sent =
        sym (take-length b.accepted)
        ∙ sym (take-append_le n b.accepted more (omega arith))
        ∙ ap (take n) (sym (ap (λ (x : Batcher). x.accepted) grown ∙ extended))
        ∙ ap (λ k. take k b'.accepted) (sym e)
        ∙ same
        ∙ ap (λ k. take k b'.sent) e in
      (t, Memᴰ-take n b'.sent (subst (λ l. Memᴰ evt l) first m))

push-retired :
    (id : Bytes) (req : TombstoneReq) (w : TombstoneWriter)
    → Memᴰ id (retired (push req w).1)
    → (id ≡ req.id) ⊎ Memᴰ id (retired w)
unfolding push
push-retired id req w =
    if-cases
      (λ (r : Bool × TombstoneWriter). Memᴰ id (retired r.1) → (id ≡ req.id) ⊎ Memᴰ id (retired w))
      w.stop_closed (λ _ m. inr m)
      (λ _.
        if-cases
          (λ (r : Bool × TombstoneWriter).
            Memᴰ id (retired r.1) → (id ≡ req.id) ⊎ Memᴰ id (retired w))
          (ltb (length w.inq) in_cap)
          (λ _ m. last (
            Memᴰ-append (retired w) (req.id ∷ []) (
              subst (λ l. Memᴰ id l) (map-append (λ (r : TombstoneReq). r.id) w.accepted (req ∷ []))
                m)))
          (λ _ m. inr m))
  where
    last : Memᴰ id (retired w) ⊎ Memᴰ id (req.id ∷ []) → (id ≡ req.id) ⊎ Memᴰ id (retired w)
    last (inl m) = inr m
    last (inr (Memᴰ.head e)) = inl e
    last (inr (Memᴰ.tail m)) = elim m [ ]

-- Only the ids that retire was given get to the tombstone writer.
retire-retired :
    (id : Bytes) (ids : List Bytes) (reason by : Bytes) (w : TombstoneWriter)
    → Memᴰ id (retired (retire ids reason by w).1)
    → Memᴰ id ids ⊎ Memᴰ id (retired w)
unfolding retire
retire-retired id [] reason by w = λ m. inr m
retire-retired id (i ∷ ids) reason by w =
    let req : TombstoneReq = record { id = i; reason = reason; deleted_by = by } in
    let r = push req w in
    if-cases
      (λ (x : Bool × TombstoneWriter).
        Memᴰ id (retired x.1) → Memᴰ id (i ∷ ids) ⊎ Memᴰ id (retired w))
      r.0 (λ _ m. rest (retire-retired id ids reason by r.1 m))
      (λ _ m. one (push-retired id req w m))
  where
    one : (id ≡ i) ⊎ Memᴰ id (retired w) → Memᴰ id (i ∷ ids) ⊎ Memᴰ id (retired w)
    one (inl e) = inl (Memᴰ.head e)
    one (inr m) = inr m

    rest :
        Memᴰ id ids
          ⊎ Memᴰ id (retired (push (record { id = i; reason = reason; deleted_by = by }) w).1)
        → Memᴰ id (i ∷ ids) ⊎ Memᴰ id (retired w)
    rest (inl m) = inl (Memᴰ.tail m)
    rest (inr m) = one (push-retired id (record { id = i; reason = reason; deleted_by = by }) w m)

pub retire_in-Hidden :
    (ids : List Bytes) (reason by id : Bytes) (s : System)
    → Memᴰ id (retired (retire_in ids reason by s).1.tombstones)
    → Memᴰ id ids ⊎ Memᴰ id (retired s.tombstones)
unfolding retire_in
retire_in-Hidden ids reason by id s m = retire-retired id ids reason by s.tombstones m

module _ (max_size : ℕ) (turn : Tier → System → Turn) where
  pub retire_in-Sent :
      (ids : List Bytes) (reason by : Bytes) (evt : Event) (s : System)
      → Sent max_size evt s
      → Sent max_size evt (retire_in ids reason by s).1
  unfolding retire_in batcher_of
  retire_in-Sent ids reason by evt s m = m

  pub enqueue_tier-Hidden :
      (t : Tier) (evt : Event) (id : Bytes) (s : System)
      → Memᴰ id (retired (enqueue_tier max_size t evt s).1.tombstones)
      → Memᴰ id (retired s.tombstones)
  unfolding enqueue_tier
  enqueue_tier-Hidden t evt id s m = m

  pub flush_tier-Hidden :
      (t : Tier) (id : Bytes) (s : System)
      → Memᴰ id (retired (flush_tier max_size turn t s).1.tombstones)
      → Memᴰ id (retired s.tombstones)
  unfolding flush_tier
  flush_tier-Hidden t id s m = m

module _ (max_size : ℕ) (turn : Tier → System → Turn)
    (probe : Event → Tier → System → Option (List Version)) (admits : System → Bool) where
  -- The batchers and the tombstone writer do what the store relies on.
  abbrev pub wired : Backend System
  wired = record {
    enqueue = enqueue_tier max_size;
    flush = flush_tier max_size turn;
    probe = λ evt t s. (probe evt t s, s);
    retire = retire_in;
    admit = λ s. (admits s, s);
    Accepted = Accepted max_size;
    Stored = Sent max_size;
    Hidden = λ id s. Memᴰ id (retired s.tombstones);
    enqueue_accepts = enqueue_tier-Accepted max_size;
    flush_stores = flush_tier-Sent max_size turn;
    retire_stored = retire_in-Sent max_size turn;
    enqueue_hidden = enqueue_tier-Hidden max_size turn;
    flush_hidden = flush_tier-Hidden max_size turn;
    probe_hidden = λ evt t id s m. m;
    admit_hidden = λ id s m. m;
    retire_hidden = retire_in-Hidden;
  }
