-- ===== src/Reads/Feeding.antt =====
-- internal/store/store.go: what a read of events_feed answers.
use archive_relay.Prelude.{
  ℕ, zero, suc, ◌≤◌, ◌≡◌, subst, false, Option, none, some, List, [], ◌∷◌, Bytes, bytes_eq_iff,
  eq_bytes, contains, insert, contains-insert, length, length-take, take, All, All-take, sort_by,
  insert_sorted, IsSorted, sort_by-IsSorted, IsSorted-take, ◌==◌, Bool-cases, inl, inr, arith,
}
use archive_relay.Nostr.{Filter, Event}
use archive_relay.Classifier.{Override}
use archive_relay.Reads.{
  newest_first, sort_desc, unique_ids, both, feed_step, trim_unique, split_feed_kinds, collect_feed,
}
use archive_relay.Reads.Merging.{newest_first_total, newest_first_trans}

abbrev Differs : Event → Event → Type 0
Differs a b = (b.id == a.id) ≡ false

abbrev pub DistinctIds : List Event → Type 0
DistinctIds [] = Unit
DistinctIds (e ∷ events) = All (Differs e) events × DistinctIds events

unique_ids-unseen :
    (seen : List Bytes) (events : List Event)
    → All (λ e. contains e.id seen ≡ false) (unique_ids seen events)
unfolding unique_ids
unique_ids-unseen seen [] = tt
unique_ids-unseen seen (e ∷ events) = elim (Bool-cases (contains e.id seen)) [
  | inl old ↦
      rw old (
        weaker (unique_ids (insert e.id seen) events) (unique_ids-unseen (insert e.id seen) events))
  | inr new ↦ rw new (
    new,
    weaker (unique_ids (insert e.id seen) events) (unique_ids-unseen (insert e.id seen) events),
  )
]
  where
    weaker :
        (l : List Event)
        → All (λ x. contains x.id (insert e.id seen) ≡ false) l
        → All (λ x. contains x.id seen ≡ false) l
    weaker [] h = tt
    weaker (x ∷ l) h = (ground (arith, contains-insert e.id x.id seen, h.0), weaker l h.1)

unseen-Differs :
    (e : Event) (seen : List Bytes) (l : List Event)
    → All (λ x. contains x.id (insert e.id seen) ≡ false) l
    → All (Differs e) l
unseen-Differs e seen [] h = tt
unseen-Differs e seen (x ∷ l) h = (
  ground
      (arith, contains-insert e.id x.id seen, h.0, bytes_eq_iff e.id x.id, bytes_eq_iff x.id e.id),
  unseen-Differs e seen l h.1,
)

unique_ids-DistinctIds :
    (seen : List Bytes) (events : List Event) → DistinctIds (unique_ids seen events)
unfolding unique_ids
unique_ids-DistinctIds seen [] = tt
unique_ids-DistinctIds seen (e ∷ events) =
    let rest = unique_ids (insert e.id seen) events in
    let ih = unique_ids-DistinctIds (insert e.id seen) events in
    elim (Bool-cases (contains e.id seen)) [
      | inl old ↦ rw old ih
      | inr new ↦
          rw new (unseen-Differs e seen rest (unique_ids-unseen (insert e.id seen) events), ih)
    ]

All-insert_sorted :
    (P : Event → Type 0) (a : Event) (l : List Event)
    → P a
    → All P l
    → All P (insert_sorted newest_first a l)
unfolding insert_sorted
All-insert_sorted P a [] p h = (p, tt)
All-insert_sorted P a (x ∷ l) p h = elim (Bool-cases (newest_first a x)) [
  | inl e ↦ rw e (p, h)
  | inr e ↦ rw e (h.0, All-insert_sorted P a l p h.1)
]

insert_sorted-DistinctIds :
    (a : Event) (l : List Event)
    → All (Differs a) l
    → DistinctIds l
    → DistinctIds (insert_sorted newest_first a l)
unfolding insert_sorted
insert_sorted-DistinctIds a [] p d = (tt, tt)
insert_sorted-DistinctIds a (x ∷ l) p d = elim (Bool-cases (newest_first a x)) [
  | inl e ↦ rw e (p, d)
  | inr e ↦ rw e (
    All-insert_sorted (Differs x) a l
        (ground (arith, p.0, bytes_eq_iff a.id x.id, bytes_eq_iff x.id a.id)) d.0,
    insert_sorted-DistinctIds a l p.1 d.1,
  )
]

All-sort_by : (P : Event → Type 0) (l : List Event) → All P l → All P (sort_by newest_first l)
unfolding sort_by
All-sort_by P [] h = tt
All-sort_by P (x ∷ l) h = All-insert_sorted P x (sort_by newest_first l) h.0 (All-sort_by P l h.1)

sort_by-DistinctIds : (l : List Event) → DistinctIds l → DistinctIds (sort_by newest_first l)
unfolding sort_by
sort_by-DistinctIds [] d = tt
sort_by-DistinctIds (x ∷ l) d =
    insert_sorted-DistinctIds x (sort_by newest_first l) (All-sort_by (Differs x) l d.0)
      (sort_by-DistinctIds l d.1)

take-DistinctIds : (n : ℕ) (l : List Event) → DistinctIds l → DistinctIds (take n l)
take-DistinctIds zero l d = tt
take-DistinctIds (suc n) [] d = tt
take-DistinctIds (suc n) (x ∷ l) d = (All-take _ n l d.0, take-DistinctIds n l d.1)

abbrev Page : ℕ → Option (List Event) → Type 0
Page limit none = Unit
Page limit (some l) = (length l ≤ limit) × IsSorted newest_first l × DistinctIds l

trim_unique-Page : (limit : ℕ) (o : Option (List Event)) → Page limit (trim_unique limit o)
unfolding sort_desc
trim_unique-Page limit none = tt
trim_unique-Page limit (some rows) =
    let uniq = unique_ids [] rows in
    let sorted = sort_by newest_first uniq in
    (
      omega (arith, length-take limit sorted),
      IsSorted-take newest_first newest_first_total newest_first_trans limit sorted
          (sort_by-IsSorted newest_first newest_first_total newest_first_trans uniq),
      take-DistinctIds limit sorted (sort_by-DistinctIds uniq (unique_ids-DistinctIds [] rows)),
    )

-- Whatever rows the feed table returns, with whatever repetitions, an answer from the feed is at
-- most the limit long, in the order of created_at DESC, id ASC, and has no id twice.
pub collect_feed_unique :
    (f : Filter) (override : Override) (limit : ℕ) (answer_a answer_b : Option (List Event))
    (events : List Event)
    → collect_feed f override limit answer_a answer_b ≡ some events
    → (length events ≤ limit) × IsSorted newest_first events × DistinctIds events
unfolding collect_feed
collect_feed_unique f override limit answer_a answer_b events e =
    let (kinds_a, kinds_b) = split_feed_kinds f.kinds override in
    subst (Page limit) e
      (trim_unique-Page limit (both (feed_step kinds_a answer_a) (feed_step kinds_b answer_b)))
