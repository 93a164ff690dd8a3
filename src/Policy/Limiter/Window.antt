-- ===== src/Policy/Limiter/Window.antt =====
-- internal/policy/ratelimit.go: how many calls of an IP pass while its window is open.
use archive_relay.Prelude.{
  Bool-cases, inl, inr, ℕ, ◌+◌, ◌-◌, ◌<◌, ◌≡◌, refl, sym, ap, subst, Bool, false, ◌||◌, some, List,
  [], ◌∷◌, Bytes, eq_bytes, nat_eq, leb, min, All, lookup, put, lookup-put, ◌==◌, ==_iff, ==_self,
  if◌then◌else◌, if-cases, arith,
}
use archive_relay.Policy.Limiter.{
  RlWindow, Limiter, minute, is_expired, current_window, gc_due, sweep, lazy_gc, counted, allow,
}

-- A call of Allow: the time and the IP.
abbrev pub Call : Type 0
Call = ℕ × Bytes

abbrev pub requests : Bytes → List Call → ℕ
requests ip [] = 0
requests ip ((now, j) ∷ calls) = (if j == ip then 1 else 0) + requests ip calls

-- How many of the calls of `ip` are allowed.
unfoldable pub allowances : ℕ → Bytes → List Call → Limiter → ℕ
allowances per_minute ip [] l = 0
allowances per_minute ip ((now, j) ∷ calls) l =
    let rest = allowances per_minute ip calls (allow per_minute now j l).1 in
    if j == ip then (if (allow per_minute now j l).0 then rest + 1 else rest) else rest

lookup-sweep :
    (now : ℕ) (ip : Bytes) (w : RlWindow) (m : List (Bytes × RlWindow))
    → is_expired now w ≡ false
    → lookup ip m ≡ some w
    → lookup ip (sweep now m) ≡ some w
unfolding lookup sweep
lookup-sweep now ip w [] fresh e = e
lookup-sweep now ip w ((j, x) ∷ m) fresh e = ground (arith, lookup-sweep now ip w m)

lookup-lazy_gc :
    (now : ℕ) (ip : Bytes) (w : RlWindow) (l : Limiter)
    → is_expired now w ≡ false
    → lookup ip l.counts ≡ some w
    → lookup ip (lazy_gc now l).counts ≡ some w
unfolding lazy_gc
lookup-lazy_gc now ip w l fresh e =
    if-cases (λ (x : Limiter). lookup ip x.counts ≡ some w) (gc_due now l.last_gc)
      (λ _. lookup-sweep now ip w l.counts fresh e) (λ _. e)

module _ (per_minute : ℕ) (ip : Bytes) (pos : nat_eq per_minute 0 ≡ false) where
  -- A call for another IP leaves an open window as it is.
  lookup-allow_ne :
      (now : ℕ) (j : Bytes) (w : RlWindow) (l : Limiter)
      → (j == ip) ≡ false
      → is_expired now w ≡ false
      → lookup ip l.counts ≡ some w
      → lookup ip (allow per_minute now j l).1.counts ≡ some w
  unfolding allow
  lookup-allow_ne now j w l other fresh e =
      if-cases (λ (r : Bool × Limiter). lookup ip r.1.counts ≡ some w)
        (nat_eq per_minute 0 || j == []) (λ _. e)
        (λ _.
          let v = counted now (lookup j l.counts) in
          let put_ne : lookup ip (put j v l.counts) ≡ some w =
            ground (arith, lookup-put j ip v l.counts) in
          lookup-lazy_gc now ip w (record l { counts = put j v l.counts }) fresh put_ne)

  lookup-allow :
      (now : ℕ) (w : RlWindow) (l : Limiter)
      → (ip == []) ≡ false
      → is_expired now w ≡ false
      → lookup ip l.counts ≡ some w
      → let r = allow per_minute now ip l in
        (r.0 ≡ leb (w.count + 1) per_minute)
        × (lookup ip r.1.counts ≡ some (record { start = w.start; count = w.count + 1 }))
  unfolding allow current_window
  lookup-allow now w l named fresh e =
      let w' : RlWindow = record { start = w.start; count = w.count + 1 } in
      let same : counted now (lookup ip l.counts) ≡ w' = rw e (rw fresh refl) in
      if-cases
        (λ (r : Bool × Limiter).
          (r.0 ≡ leb (w.count + 1) per_minute) × (lookup ip r.1.counts ≡ some w'))
        (nat_eq per_minute 0 || ip == []) (λ h. ground arith)
        (λ _.
          let v = counted now (lookup ip l.counts) in
          let found : lookup ip (put ip v l.counts) ≡ some w' =
            ground (arith, lookup-put ip ip v l.counts, ==_self ip, same) in
          (
            ap (λ (x : RlWindow). leb x.count per_minute) same,
            lookup-lazy_gc now ip w' (record l { counts = put ip v l.counts }) fresh found,
          ))

-- With a limit above 0, while the window of an IP is open, and whatever calls for other IPs and
-- sweeps come between, exactly the calls of that IP pass that are left of the limit.
pub allowances_lem :
    (per_minute : ℕ) (ip : Bytes) (calls : List Call) (w : RlWindow) (l : Limiter)
    → nat_eq per_minute 0 ≡ false
    → (ip == []) ≡ false
    → lookup ip l.counts ≡ some w
    → All (λ call. call.0 < w.start + minute) calls
    → allowances per_minute ip calls l ≡ min (requests ip calls) (per_minute - w.count)
unfolding allowances
allowances_lem per_minute ip [] w l pos named e h = omega arith
allowances_lem per_minute ip ((now, j) ∷ calls) w l pos named e h =
    let fresh : is_expired now w ≡ false = ground (arith, h.0) in
    elim (Bool-cases (j == ip)) [
      | inl same ↦
          let j_ip : j ≡ ip = (==_iff j ip).0 same in
          let own : ((allow per_minute now j l).0 ≡ leb (w.count + 1) per_minute)
              × (lookup ip (allow per_minute now j l).1.counts
                  ≡ some (record { start = w.start; count = w.count + 1 })) =
            subst
              (λ k.
                ((allow per_minute now k l).0 ≡ leb (w.count + 1) per_minute)
                × (lookup ip (allow per_minute now k l).1.counts
                    ≡ some (record { start = w.start; count = w.count + 1 })))
              (sym j_ip) (lookup-allow per_minute ip pos now w l named fresh e) in
          let rest =
            allowances_lem per_minute ip calls (record { start = w.start; count = w.count + 1 })
              (allow per_minute now j l).1 pos named own.1 h.1 in
          ground (arith, rest, own.0)
      | inr other ↦
          let rest =
            allowances_lem per_minute ip calls w (allow per_minute now j l).1 pos named
              (lookup-allow_ne per_minute ip pos now j w l other fresh e) h.1 in
          ground (arith, rest)
    ]
