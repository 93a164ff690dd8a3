-- ===== src/Lookup/Flushed.antt =====
-- internal/store/store.go: what an internal lookup finds of the events that are still in the batchers.
use archive_relay.Prelude.{
  ℕ, ◌≡◌, refl, sym, ap, subst, ◌∙◌, Bool, true, false, Option, List, [], ◌∷◌, ◌++◌, Memᴰ,
  Memᴰ-append_left, contains, ◌==◌, Bool-cases, inl, inr, arith,
}
use archive_relay.Nostr.{Event, Filter}
use archive_relay.Classifier.{
  Tier, permanent, archive, social, drop, is_drop, active_tiers, eq_tier, same_tier_iff, Override,
}
use archive_relay.Batcher
use archive_relay.Batcher.{Batcher, Action, new_batcher, requests}
use archive_relay.Batcher.Growth.{run-Extends, run-append}
use archive_relay.Batcher.Inserted.{run-Grows}
use archive_relay.Store.{Version, flush_tiers, flush_all}
use archive_relay.System.{System, Turn, batcher_of, only, flush_tier}
use archive_relay.System.Wired.{Accepted, Sent, flush_tier-Sent, wired}
use archive_relay.Lookup.{Answers, collected, query_events}

in_active : (t : Tier) → is_drop t ≡ false → contains t active_tiers ≡ true
unfolding contains
in_active permanent d = refl
in_active archive d = refl
in_active social d = refl
in_active drop d = absurd (cc d)

module _ (max_size : ℕ) (turn : Tier → System → Turn) where
  -- A FlushAll of one tier is a run of the batchers of all.
  flush_tier-run :
      (u t : Tier) (s : System)
      → (acts : List Action) × (batcher_of max_size t (flush_tier max_size turn u s).1
          ≡ Batcher.run acts (batcher_of max_size t s))
  unfolding flush_tier batcher_of
  flush_tier-run u t s =
      let one = only max_size u (requests s.calls ∷ []) t in
      let moves = (turn u s).moves t in
      let fresh = new_batcher max_size true in
      (
        one ++ moves,
        run-append (s.history t ++ one) moves fresh
            ∙ ap (Batcher.run moves) (run-append (s.history t) one fresh)
            ∙ sym (run-append one moves (Batcher.run (s.history t) fresh)),
      )

  flush_tier-Accepted :
      (u t : Tier) (evt : Event) (s : System)
      → Accepted max_size t evt s
      → Accepted max_size t evt (flush_tier max_size turn u s).1
  flush_tier-Accepted u t evt s m =
      let (acts, e) = flush_tier-run u t s in
      let b = batcher_of max_size t s in
      let (more, g) = run-Extends acts b in
      subst (λ (l : List Event). Memᴰ evt l) (sym (ap (λ (x : Batcher). x.accepted) e ∙ g))
        (Memᴰ-append_left b.accepted more m)

  flush_tier_keeps_Sent :
      (u : Tier) (evt : Event) (s : System)
      → Sent max_size evt s
      → Sent max_size evt (flush_tier max_size turn u s).1
  flush_tier_keeps_Sent u evt s (t, m) =
      let (acts, e) = flush_tier-run u t s in
      let b = batcher_of max_size t s in
      let (more, g) = run-Grows acts b in
      (
        t,
        subst (λ (l : List Event). Memᴰ evt l) (sym (ap (λ (x : Batcher). x.sent) e ∙ g))
            (Memᴰ-append_left b.sent more m),
      )

  module _ (probe : Event → Tier → System → Option (List Version)) (admits : System → Bool)
      (override : Override) where
    flush_tiers_keep_Sent :
        (tiers : List Tier) (evt : Event) (s : System)
        → Sent max_size evt s
        → Sent max_size evt (flush_tiers (wired max_size turn probe admits) override tiers s).1
    unfolding flush_tiers
    flush_tiers_keep_Sent [] evt s m = m
    flush_tiers_keep_Sent (u ∷ tiers) evt s m =
        flush_tiers_keep_Sent tiers evt (flush_tier max_size turn u s).1
          (flush_tier_keeps_Sent u evt s m)

    flush_tiers-Sent :
        (tiers : List Tier) (t : Tier) (evt : Event) (s : System)
        → contains t tiers ≡ true
        → Accepted max_size t evt s
        → (flush_tiers (wired max_size turn probe admits) override tiers s).0 ≡ true
        → Sent max_size evt (flush_tiers (wired max_size turn probe admits) override tiers s).1
    unfolding flush_tiers contains
    flush_tiers-Sent [] t evt s c m h = absurd (cc c)
    flush_tiers-Sent (u ∷ tiers) t evt s c m h =
        let s' = (flush_tier max_size turn u s).1 in
        elim (Bool-cases (u == t)) [
          | inl e ↦ flush_tiers_keep_Sent tiers evt s' (
              flush_tier-Sent max_size turn u evt s
                (subst (λ (x : Tier). Accepted max_size x evt s) (sym ((same_tier_iff u t).0 e)) m)
                (ground (arith, h)))
          | inr n ↦
              flush_tiers-Sent tiers t evt s' (ground (arith, c, n))
                (flush_tier-Accepted u t evt s m) (ground (arith, h))
        ]

    -- An internal call is answered from a ClickHouse in which every event is that any tier's batcher
    -- had accepted by then, if its FlushAll returned nil, whatever the other goroutines do meanwhile;
    -- and it is not refused for the load of the reads.
    pub query_events-Sent :
        (answers : Answers System) (has_feed : Bool) (now : ℕ) (f : Filter) (t : Tier) (evt : Event)
        (s : System)
        → is_drop t ≡ false
        → Accepted max_size t evt s
        → (flush_all (wired max_size turn probe admits) override s).0 ≡ true
        → let r =
            query_events
              (wired max_size turn probe admits)
              override
              answers
              has_feed
              now
              f
              true
              s in
          Sent max_size evt r.1
          × (r.0 ≡ collected (wired max_size turn probe admits) override answers has_feed now f r.1)
    unfolding query_events flush_all
    query_events-Sent answers has_feed now f t evt s d m h =
        (flush_tiers-Sent active_tiers t evt s (in_active t d) m h, refl)
