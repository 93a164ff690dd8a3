-- ===== src/Fetch/Taken.antt =====
-- internal/crawler/priority.go over internal/store: what the batchers get from one subscription.
use archive_relay.Prelude.{
  ℕ, ◌+◌, ◌≡◌, refl, sym, ap, subst, ◌∙◌, Bool, true, false, ◌&&◌, Option, List, [], ◌∷◌, ◌++◌,
  append_assoc, append-nil, length, ◌==◌, if◌then◌else◌, arith,
}
use archive_relay.Nostr.{Event}
use archive_relay.Classifier.{Tier, eq_tier, Override, tier_for_event}
use archive_relay.Dedup.{Dedup}
use archive_relay.Ingest.{Saved, ingest_step}
use archive_relay.Store.{Version, save_event}
use archive_relay.System.{System, Turn}
use archive_relay.System.Ingesting.{accepted_by, accepted-ingested}
use archive_relay.System.Wired.{wired}
use archive_relay.Fetch.{
  Receive, received, context_done, end_of_stored, closed_reason, events_closed, Fetched,
  receive_all, fetch_on,
}

-- The events that come before the first receive of another kind.
abbrev pub pulled : List Receive → List Event
pulled (received now ev ∷ rs) = ev ∷ pulled rs
pulled _ = []

-- The first receive that is not an event is the end of the stored events.
abbrev pub ends_clean : List Receive → Bool
ends_clean (received now ev ∷ rs) = ends_clean rs
ends_clean (end_of_stored ∷ rs) = true
ends_clean _ = false

-- The first list is some of the second, in its order.
pub data Among : List Event → List Event → Type 0 where
  done : Among [] []
  taken : {ev : Event} {es l : List Event} → Among es l → Among (ev ∷ es) (ev ∷ l)
  skipped : {ev : Event} {es l : List Event} → Among es l → Among es (ev ∷ l)

abbrev pub of_tier : Override → Tier → List Event → List Event
of_tier override u [] = []
of_tier override u (ev ∷ es) =
    let rest = of_tier override u es in if tier_for_event ev override == u then ev ∷ rest else rest

append-if :
    (b : Bool) (ev : Event) (before now rest : List Event)
    → now ≡ (if b then before ++ ev ∷ [] else before)
    → now ++ rest ≡ before ++ (if b then ev ∷ rest else rest)
append-if true ev before now rest p =
    ap (λ (t : List Event). t ++ rest) p ∙ append_assoc before (ev ∷ []) rest
append-if false ev before now rest p = ap (λ (t : List Event). t ++ rest) p

module _ (max_size : ℕ) (turn : Tier → System → Turn)
    (probe : Event → Tier → System → Option (List Version)) (admits : System → Bool)
    (override : Override) (cap : ℕ) (verify : Event → Bool × Bool) where
  abbrev save : Event → System → Saved × System
  save = save_event (wired max_size turn probe admits) override

  abbrev pub fetched : Bool → List Receive → System → Dedup → Fetched System
  fetched subscribes rs s d = fetch_on cap save verify subscribes rs s d

  -- What the receives make of the counts and of the batchers.
  abbrev Pulls : List Receive → System → ℕ → ℕ → Fetched System → Type 0
  Pulls rs s i k r =
      (r.clean ≡ ends_clean rs)
      × ((es : List Event) × Among es (pulled rs)
          × (r.ingested ≡ i + length es)
          × (r.skipped + length es ≡ k + length (pulled rs))
          × ((u : Tier)
              → accepted_by max_size u r.store ≡ accepted_by max_size u s ++ of_tier override u es))

  Pulls-one :
      (now : ℕ) (ev : Event) (rs : List Receive) (s s' : System) (i k : ℕ) (stored : Bool)
      (r : Fetched System)
      → ((u : Tier)
          → accepted_by max_size u s' ≡ (
              if stored && tier_for_event ev override == u
              then accepted_by max_size u s ++ ev ∷ []
              else accepted_by max_size u s))
      → Pulls rs s' (if stored then i + 1 else i) (if stored then k else k + 1) r
      → Pulls (received now ev ∷ rs) s i k r
  Pulls-one now ev rs s s' i k true r adds (c, (es, m, n, l, acc)) = (
    c,
    (
      ev ∷ es,
      taken m,
      omega (arith, n),
      omega (arith, l),
      λ u.
          acc u
          ∙ append-if (tier_for_event ev override == u) ev (accepted_by max_size u s) _
              (of_tier override u es) (adds u),
    ),
  )
  Pulls-one now ev rs s s' i k false r adds (c, (es, m, n, l, acc)) = (
    c,
    (
      es,
      skipped m,
      omega (arith, n),
      omega (arith, l),
      λ u. acc u ∙ ap (λ (t : List Event). t ++ of_tier override u es) (adds u),
    ),
  )

  none_pulled :
      (s : System) (d : Dedup) (i k : ℕ) (rs : List Receive) (clean : Bool)
      → ends_clean rs ≡ clean
      → pulled rs ≡ []
      → Pulls rs s i k (record { clean = clean; store = s; dedup = d; ingested = i; skipped = k })
  none_pulled s d i k rs clean c p = (
    sym c,
    (
      [],
      subst (Among []) (sym p) done,
      omega arith,
      omega (arith, ap length p),
      λ u. sym (append-nil _),
    ),
  )

  receive_all-Pulls :
      (rs : List Receive) (s : System) (d : Dedup) (i k : ℕ)
      → Pulls rs s i k (receive_all cap save verify rs s d i k)
  unfolding receive_all
  receive_all-Pulls [] s d i k = none_pulled s d i k [] false refl refl
  receive_all-Pulls (context_done ∷ rs) s d i k =
      none_pulled s d i k (context_done ∷ rs) false refl refl
  receive_all-Pulls (end_of_stored ∷ rs) s d i k =
      none_pulled s d i k (end_of_stored ∷ rs) true refl refl
  receive_all-Pulls (closed_reason ∷ rs) s d i k =
      none_pulled s d i k (closed_reason ∷ rs) false refl refl
  receive_all-Pulls (events_closed ∷ rs) s d i k =
      none_pulled s d i k (events_closed ∷ rs) false refl refl
  receive_all-Pulls (received now ev ∷ rs) s d i k =
      let a = ingest_step cap now save verify ev s d in
      let i' = if a.stored then i + 1 else i in
      let k' = if a.stored then k else k + 1 in
      Pulls-one now ev rs s a.store i k a.stored
        (receive_all cap save verify rs a.store a.dedup i' k')
        (λ u. accepted-ingested max_size turn probe admits override cap now verify u ev s d)
        (receive_all-Pulls rs a.store a.dedup i' k')

  -- A subscription says that it is clean exactly if Subscribe succeeds and the end of the stored
  -- events comes before anything else but events. However it ends, each event that it received is
  -- counted once, as ingested or as skipped, and the batcher of each tier has accepted just those
  -- that are counted as ingested and are of its tier, in the order in which they were received.
  pub fetch_on-Among :
      (subscribes : Bool) (rs : List Receive) (s : System) (d : Dedup)
      → let r = fetched subscribes rs s d in
        let l = if subscribes then pulled rs else [] in
        (r.clean ≡ (subscribes && ends_clean rs))
        × ((es : List Event) × Among es l
            × (r.ingested ≡ length es)
            × (r.skipped + r.ingested ≡ length l)
            × ((u : Tier)
                → accepted_by max_size u r.store
                  ≡ accepted_by max_size u s ++ of_tier override u es))
  unfolding fetch_on
  fetch_on-Among false rs s d = (refl, ([], done, refl, refl, λ u. sym (append-nil _)))
  fetch_on-Among true rs s d =
      let (c, (es, m, n, l, acc)) = receive_all-Pulls rs s d 0 0 in
      (c, (es, m, omega (arith, n), omega (arith, n, l), acc))
