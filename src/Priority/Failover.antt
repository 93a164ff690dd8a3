-- ===== src/Priority/Failover.antt =====
-- internal/crawler/priority.go: the pubkeys that a tick has fetched, and those left to the next one.
use archive_relay.Prelude.{
  ℕ, zero, suc, ◌≤◌, ◌≡◌, refl, sym, ap, subst, ◌∙◌, Bool, true, false, ◌&&◌, ◌||◌, some, List, [],
  ◌∷◌, Bytes, eq_bytes, length, All, if◌then◌else◌, if-cases, Bool-cases, inl, inr, ◌==◌, arith,
}
use archive_relay.Control.{Db, last_fetched, last_swept, mark_fetched}
use archive_relay.Control.Tables.{mark_fetched-mark_swept}
use archive_relay.Priority.{
  PubkeyJob, Upstream, mark_done, fetch_jobs, fetch_relay, visit, decide_all, tick,
}

-- Some relay that can be reached serves the job.
abbrev pub served : List Upstream → PubkeyJob → Bool
served [] job = false
served (relay ∷ relays) job = (relay.connects && relay.serves job) || served relays job

abbrev pub unserved : List Upstream → List PubkeyJob → List PubkeyJob
unserved relays [] = []
unserved relays (job ∷ jobs) =
    let rest = unserved relays jobs in if served relays job then rest else job ∷ rest

-- Some job of the pubkey is served; and one that is a full sweep.
abbrev pub fetched : List Upstream → Bytes → List PubkeyJob → Bool
fetched relays pk [] = false
fetched relays pk (job ∷ jobs) = (job.pubkey == pk && served relays job) || fetched relays pk jobs

abbrev pub swept : List Upstream → Bytes → List PubkeyJob → Bool
swept relays pk [] = false
swept relays pk (job ∷ jobs) =
    (job.pubkey == pk && (job.full_sweep && served relays job)) || swept relays pk jobs

mark_done_lem :
    (now : ℕ) (job : PubkeyJob) (pk : Bytes) (db : Db)
    → let db' = mark_done true now job db in
      (last_fetched true pk db' ≡ (if job.pubkey == pk then some now else last_fetched true pk db))
      × (last_swept true pk db'
          ≡ (if job.pubkey == pk && job.full_sweep then some now else last_swept true pk db))
unfolding mark_done
mark_done_lem now job pk db =
    let db1 = (mark_fetched true now job.pubkey db).1 in
    let f = mark_fetched-mark_swept now job.pubkey pk db in
    let s = mark_fetched-mark_swept now job.pubkey pk db1 in
    if-cases
      (λ (x : Db).
        (last_fetched true pk x ≡ (if job.pubkey == pk then some now else last_fetched true pk db))
        × (last_swept true pk x
            ≡ (if job.pubkey == pk && job.full_sweep then some now else last_swept true pk db)))
      job.full_sweep (λ h. ground (arith, f, s)) (λ h. ground (arith, f))

-- What the jobs do to the state of a pubkey, given a relay list that serves them.
abbrev Outcome : ℕ → List Upstream → List PubkeyJob → Db → List PubkeyJob × Db → Type 0
Outcome now relays jobs db r =
    (r.0 ≡ unserved relays jobs)
    × ((pk : Bytes)
        → (last_fetched true pk r.1
            ≡ (if fetched relays pk jobs then some now else last_fetched true pk db))
          × (last_swept true pk r.1
              ≡ (if swept relays pk jobs then some now else last_swept true pk db)))

fetch_jobs_lem :
    (relay : Upstream) (now budget : ℕ) (jobs : List PubkeyJob) (db : Db)
    → relay.connects ≡ true
    → length jobs ≤ budget
    → Outcome now (relay ∷ []) jobs db (fetch_jobs relay.serves true now budget jobs db)
unfolding fetch_jobs
fetch_jobs_lem relay now zero [] db c h = (refl, λ pk. (refl, refl))
fetch_jobs_lem relay now zero (job ∷ jobs) db c h = absurd (omega arith)
fetch_jobs_lem relay now (suc budget) [] db c h = (refl, λ pk. (refl, refl))
fetch_jobs_lem relay now (suc budget) (job ∷ jobs) db c h = elim (Bool-cases (relay.serves job)) [
  | inl yes' ↦
      let ih = fetch_jobs_lem relay now budget jobs (mark_done true now job db) c (omega arith) in
      (ground (arith, ih.0), λ pk. ground (arith, ih.1 pk, mark_done_lem now job pk db))
  | inr no' ↦
      let ih = fetch_jobs_lem relay now budget jobs db c (omega arith) in
      (ground (arith, ih.0), λ pk. ground (arith, ih.1 pk))
]

unserved-none :
    (relay : Upstream) (jobs : List PubkeyJob)
    → relay.connects ≡ false
    → unserved (relay ∷ []) jobs ≡ jobs
unserved-none relay [] c = refl
unserved-none relay (job ∷ jobs) c = ground (arith, unserved-none relay jobs)

fetched-none :
    (relay : Upstream) (pk : Bytes) (jobs : List PubkeyJob)
    → relay.connects ≡ false
    → (fetched (relay ∷ []) pk jobs ≡ false) × (swept (relay ∷ []) pk jobs ≡ false)
fetched-none relay pk [] c = (refl, refl)
fetched-none relay pk (job ∷ jobs) c = ground (arith, fetched-none relay pk jobs)

fetch_relay_lem :
    (relay : Upstream) (now : ℕ) (jobs : List PubkeyJob) (db : Db)
    → length jobs ≤ relay.budget
    → Outcome now (relay ∷ []) jobs db (fetch_relay true now relay jobs db)
unfolding fetch_relay
fetch_relay_lem relay now jobs db h =
    if-cases (Outcome now (relay ∷ []) jobs db) relay.connects
      (λ c. fetch_jobs_lem relay now relay.budget jobs db c h)
      (λ c. (sym (unserved-none relay jobs c), λ pk. ground (arith, fetched-none relay pk jobs)))

length-unserved :
    (relays : List Upstream) (jobs : List PubkeyJob) → length (unserved relays jobs) ≤ length jobs
length-unserved relays [] = omega arith
length-unserved relays (job ∷ jobs) = ground (arith, length-unserved relays jobs)

unserved-unserved :
    (relay : Upstream) (relays : List Upstream) (jobs : List PubkeyJob)
    → unserved relays (unserved (relay ∷ []) jobs) ≡ unserved (relay ∷ relays) jobs
unserved-unserved relay relays [] = refl
unserved-unserved relay relays (job ∷ jobs) = ground (arith, unserved-unserved relay relays jobs)

fetched-unserved :
    (relay : Upstream) (relays : List Upstream) (pk : Bytes) (jobs : List PubkeyJob)
    → (fetched (relay ∷ relays) pk jobs
        ≡ (fetched relays pk (unserved (relay ∷ []) jobs) || fetched (relay ∷ []) pk jobs))
      × (swept (relay ∷ relays) pk jobs
          ≡ (swept relays pk (unserved (relay ∷ []) jobs) || swept (relay ∷ []) pk jobs))
fetched-unserved relay relays pk [] = (refl, refl)
fetched-unserved relay relays pk (job ∷ jobs) =
    ground (arith, fetched-unserved relay relays pk jobs)

All-le :
    (m n : ℕ) (relays : List Upstream)
    → m ≤ n
    → All (λ r. n ≤ r.budget) relays
    → All (λ r. m ≤ r.budget) relays
All-le m n [] h a = tt
All-le m n (r ∷ relays) h a = (omega (arith, a.0), All-le m n relays h a.1)

nothing_left :
    (relays : List Upstream) (jobs : List PubkeyJob)
    → ((job : PubkeyJob) → served relays job ≡ false)
    → unserved relays jobs ≡ jobs
nothing_left relays [] h = refl
nothing_left relays (job ∷ jobs) h =
    rw (h job) (ap (λ (l : List PubkeyJob). job ∷ l) (nothing_left relays jobs h))

none_fetched :
    (pk : Bytes) (jobs : List PubkeyJob) → (fetched [] pk jobs ≡ false) × (swept [] pk jobs ≡ false)
none_fetched pk [] = (refl, refl)
none_fetched pk (job ∷ jobs) = ground (arith, none_fetched pk jobs)

visit_lem :
    (now : ℕ) (relays : List Upstream) (jobs : List PubkeyJob) (db : Db)
    → All (λ r. length jobs ≤ r.budget) relays
    → Outcome now relays jobs db (visit true now relays jobs db)
unfolding visit
visit_lem now [] jobs db h =
    (sym (nothing_left [] jobs (λ job. refl)), λ pk. ground (arith, none_fetched pk jobs))
visit_lem now (relay ∷ relays) [] db h = (refl, λ pk. (refl, refl))
visit_lem now (relay ∷ relays) (job ∷ jobs) db h =
    let r = fetch_relay true now relay (job ∷ jobs) db in
    let first = fetch_relay_lem relay now (job ∷ jobs) db h.0 in
    let left = unserved (relay ∷ []) (job ∷ jobs) in
    let fewer : length r.0 ≤ length (job ∷ jobs) =
      omega (arith, ap length first.0, length-unserved (relay ∷ []) (job ∷ jobs)) in
    let rest = visit_lem now relays r.0 r.1 (All-le _ _ relays fewer h.1) in
    let rest' : Outcome now relays left r.1 (visit true now relays r.0 r.1) =
      subst (λ (l : List PubkeyJob). Outcome now relays l r.1 (visit true now relays r.0 r.1))
        first.0 rest in
    (
      rest'.0 ∙ unserved-unserved relay relays (job ∷ jobs),
      λ pk. ground (arith, rest'.1 pk, first.1 pk, fetched-unserved relay relays pk (job ∷ jobs)),
    )

-- A tick that is not cut short, with a control database that takes its writes: the pubkeys that are
-- left over are exactly those that no reachable relay serves to a clean EOSE; the time of the last
-- fetch is set for the others and for no pubkey else, and that of the last full sweep only where the
-- job was one.
pub tick_lem :
    (now : ℕ) (reads : Bytes → Bool) (relays : List Upstream) (pubkeys : List Bytes) (db : Db)
    (pk : Bytes)
    → All (λ r. length (decide_all now reads db pubkeys) ≤ r.budget) relays
    → let jobs = decide_all now reads db pubkeys in
      let r = tick now reads true relays pubkeys db in
      (r.0 ≡ unserved relays jobs)
      × (last_fetched true pk r.1
          ≡ (if fetched relays pk jobs then some now else last_fetched true pk db))
      × (last_swept true pk r.1
          ≡ (if swept relays pk jobs then some now else last_swept true pk db))
unfolding tick
tick_lem now reads relays pubkeys db pk h =
    let o = visit_lem now relays (decide_all now reads db pubkeys) db h in
    (o.0, (o.1 pk).0, (o.1 pk).1)
