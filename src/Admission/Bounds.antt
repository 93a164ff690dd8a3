-- ===== src/Admission/Bounds.antt =====
-- internal/store/store.go: how many reads run and wait, and what becomes of each.
use archive_relay.Prelude.{
  ◌+◌, ◌≤◌, ◌≡◌, Bool, true, false, not, ◌&&◌, List, [], ◌∷◌, ltb, leb, nat_eq, if-cases, arith,
}
use archive_relay.Admission.{
  read_admission_cap, Admission, new_admission, Admitted, token, waits, bypass, err_read_busy,
  canceled, goes_on, arrive, try_token, join_waiters, take_token, give_up, leave_taking,
  leave_quitting, release, Call, arrives, tries, joins, takes, gives_up, leaves, quits, releases,
  step, run,
}

-- The tokens and the slots are bounded, and each is with a call; and where each call is.
abbrev pub IsAccounted : Admission → Type 0
IsAccounted a =
    (a.read_sem ≤ read_admission_cap)
    × (a.read_wait ≤ read_admission_cap)
    × (a.read_sem ≡ a.running + a.taking)
    × (a.read_wait ≡ a.waiting + (a.taking + a.quitting))
    × (a.granted ≡ a.read_sem + a.released)
    × (a.arrived ≡ a.granted + (a.refused + (a.exempt + (a.live + (a.full + a.waiting)))))

step-IsAccounted : (c : Call) (a : Admission) → IsAccounted a → IsAccounted (step c a)
unfolding step arrive try_token join_waiters take_token give_up leave_taking leave_quitting release
step-IsAccounted (arrives internal done) a i =
    let P : Admitted × Admission → Type 0 = λ r. IsAccounted r.1 in
    if-cases P internal (λ h1. ground arith)
      (λ h2. if-cases P done (λ h3. ground arith) (λ h4. ground arith))
step-IsAccounted tries a i =
    if-cases IsAccounted (ltb 0 a.live)
      (λ h5.
        if-cases (λ (r : Admitted × Admission). IsAccounted r.1) (ltb a.read_sem read_admission_cap)
          (λ h6. ground arith) (λ h7. ground arith))
      (λ h8. i)
step-IsAccounted (joins cancels) a i =
    let P : Admitted × Admission → Type 0 = λ r. IsAccounted r.1 in
    if-cases IsAccounted (ltb 0 a.full)
      (λ h9.
        if-cases P cancels (λ h10. ground arith)
          (λ h11.
            if-cases P (ltb a.read_wait read_admission_cap) (λ h12. ground arith)
              (λ h13. ground arith)))
      (λ h14. i)
step-IsAccounted takes a i =
    if-cases IsAccounted (ltb 0 a.waiting)
      (λ h15.
        if-cases IsAccounted (ltb a.read_sem read_admission_cap) (λ h16. ground arith) (λ h17. i))
      (λ h18. i)
step-IsAccounted gives_up a i =
    if-cases IsAccounted (ltb 0 a.waiting) (λ h19. ground arith) (λ h20. i)
step-IsAccounted leaves a i = if-cases IsAccounted (ltb 0 a.taking) (λ h21. ground arith) (λ h22. i)
step-IsAccounted quits a i =
    if-cases IsAccounted (ltb 0 a.quitting) (λ h23. ground arith) (λ h24. i)
step-IsAccounted releases a i =
    if-cases IsAccounted (ltb 0 a.running) (λ h25. ground arith) (λ h26. i)

run-IsAccounted : (calls : List Call) (a : Admission) → IsAccounted a → IsAccounted (run calls a)
unfolding run
run-IsAccounted [] a i = i
run-IsAccounted (c ∷ calls) a i = run-IsAccounted calls (step c a) (step-IsAccounted c a i)

abbrev pub is_busy : Admitted → Bool
is_busy err_read_busy = true
is_busy token = false
is_busy waits = false
is_busy bypass = false
is_busy canceled = false
is_busy goes_on = false

abbrev pub is_token : Admitted → Bool
is_token token = true
is_token err_read_busy = false
is_token waits = false
is_token bypass = false
is_token canceled = false
is_token goes_on = false

busy_lem :
    (cancels : Bool) (a : Admission)
    → is_busy (join_waiters cancels a).0 ≡ (not cancels && leb read_admission_cap a.read_wait)
unfolding join_waiters
busy_lem cancels a =
    let P : Admitted × Admission → Type 0 =
      λ r. is_busy r.0 ≡ (not cancels && leb read_admission_cap a.read_wait) in
    if-cases P cancels (λ h. ground arith)
      (λ h.
        if-cases P (ltb a.read_wait read_admission_cap) (λ h4. ground arith) (λ h4. ground arith))

token_lem : (a : Admission) → is_token (try_token a).0 ≡ ltb a.read_sem read_admission_cap
unfolding try_token
token_lem a =
    if-cases (λ (r : Admitted × Admission). is_token r.0 ≡ ltb a.read_sem read_admission_cap)
      (ltb a.read_sem read_admission_cap) (λ h. ground arith) (λ h. ground arith)

-- Whatever the interleaving of the calls' selects, their deferred receives and their releases: at most
-- 16 tokens and at most 16 waiters' slots are taken, each by a call that runs, waits or is about to
-- return; each call was granted a token, was refused, is internal and exempt, or is on its way. A call
-- goes past the select for a free token exactly if 16 are taken at that moment, and is then refused
-- as busy exactly if it is not canceled and 16 slots are taken at the moment of the next select.
pub run-bounded :
    (calls : List Call) (cancels : Bool)
    → let a = run calls new_admission in
      IsAccounted a
      × (is_token (try_token a).0 ≡ not (nat_eq a.read_sem read_admission_cap))
      × (is_busy (join_waiters cancels a).0
          ≡ (not cancels && nat_eq a.read_wait read_admission_cap))
run-bounded calls cancels =
    let a = run calls new_admission in
    let i : IsAccounted a =
      run-IsAccounted calls new_admission (unfold new_admission in omega arith) in
    (i, ground (arith, token_lem a, i.0), ground (arith, busy_lem cancels a, i.1))
