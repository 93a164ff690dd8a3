-- ===== src/Admission.antt =====
-- internal/store/store.go: acquireRead, the admission of reads, as a state machine. A step is one select
-- of a call, the deferred receive that gives its waiter's slot back, or the release of its token; any
-- list of steps is an interleaving of any number of calls.
pub mod Bounds
mod Tests
use archive_relay.Prelude.{ℕ, ◌+◌, ◌-◌, Bool, true, false, ◌&&◌, List, [], ◌∷◌, ltb, if◌then◌else◌}

abbrev pub read_admission_cap : ℕ
read_admission_cap = 16

pub record Admission : Type 0 where
  pub read_sem : ℕ  -- the tokens taken
  pub read_wait : ℕ  -- the waiters' slots taken
  -- How many calls are where.
  pub live : ℕ  -- past the check of the context
  pub full : ℕ  -- past the select that found no token
  pub waiting : ℕ  -- with a slot, at the last select
  pub taking : ℕ  -- with a token, about to give the slot back
  pub quitting : ℕ  -- canceled, about to give the slot back
  pub running : ℕ  -- returned with a token
  pub exempt : ℕ  -- internal ones, returned with none
  -- How many calls there were, and what became of them.
  pub arrived : ℕ
  pub granted : ℕ
  pub released : ℕ
  pub refused : ℕ  -- with ErrReadBusy or the error of the context

unfoldable pub new_admission : Admission
new_admission = record {
  read_sem = 0;
  read_wait = 0;
  live = 0;
  full = 0;
  waiting = 0;
  taking = 0;
  quitting = 0;
  running = 0;
  exempt = 0;
  arrived = 0;
  granted = 0;
  released = 0;
  refused = 0;
}

pub data Admitted : Type 0 where
  token waits bypass err_read_busy canceled goes_on : Admitted

-- Up to the first select: `internal` is khatru.IsInternalCall, `done` whether the context is done.
unfoldable pub arrive : Bool → Bool → Admission → Admitted × Admission
arrive internal done a =
    if internal
    then (bypass, record a { arrived = a.arrived + 1; exempt = a.exempt + 1 })
    else if done
    then (canceled, record a { arrived = a.arrived + 1; refused = a.refused + 1 })
    else (goes_on, record a { arrived = a.arrived + 1; live = a.live + 1 })

-- The second select.
unfoldable pub try_token : Admission → Admitted × Admission
try_token a =
    if ltb a.read_sem read_admission_cap
    then (
      token,
      record a {
        live = a.live - 1;
        read_sem = a.read_sem + 1;
        running = a.running + 1;
        granted = a.granted + 1;
      },
    )
    else (goes_on, record a { live = a.live - 1; full = a.full + 1 })

-- The third select. `cancels` is whether it takes the case of the context, which it may if that is done
-- by then, and must if that is done and no slot is free.
unfoldable pub join_waiters : Bool → Admission → Admitted × Admission
join_waiters cancels a =
    if cancels
    then (canceled, record a { full = a.full - 1; refused = a.refused + 1 })
    else if ltb a.read_wait read_admission_cap
    then (
      waits,
      record a { full = a.full - 1; read_wait = a.read_wait + 1; waiting = a.waiting + 1 },
    )
    else (err_read_busy, record a { full = a.full - 1; refused = a.refused + 1 })

-- The last select: a waiter takes a free token, or leaves when its context ends.
unfoldable pub take_token : Admission → Admission
take_token a =
    if ltb a.read_sem read_admission_cap
    then record a {
      waiting = a.waiting - 1;
      read_sem = a.read_sem + 1;
      taking = a.taking + 1;
      granted = a.granted + 1;
    }
    else a

unfoldable pub give_up : Admission → Admission
give_up a = record a { waiting = a.waiting - 1; quitting = a.quitting + 1; refused = a.refused + 1 }

-- The deferred receive from readWait, after which the call returns.
unfoldable pub leave_taking : Admission → Admission
leave_taking a = record a {
  taking = a.taking - 1;
  read_wait = a.read_wait - 1;
  running = a.running + 1;
}

unfoldable pub leave_quitting : Admission → Admission
leave_quitting a = record a { quitting = a.quitting - 1; read_wait = a.read_wait - 1 }

-- The release func of a call that returned with a token.
unfoldable pub release : Admission → Admission
release a = record a {
  running = a.running - 1;
  read_sem = a.read_sem - 1;
  released = a.released + 1;
}

pub data Call : Type 0 where
  arrives : Bool → Bool → Call
  tries takes gives_up leaves quits releases : Call
  joins : Bool → Call

abbrev pub when_any : ℕ → Admission → Admission → Admission
when_any n next a = if ltb 0 n then next else a

-- A step of a call that is there; without one, nothing happens.
unfoldable pub step : Call → Admission → Admission
step (arrives internal done) a = (arrive internal done a).1
step tries a = when_any a.live (try_token a).1 a
step (joins cancels) a = when_any a.full (join_waiters cancels a).1 a
step takes a = when_any a.waiting (take_token a) a
step gives_up a = when_any a.waiting (give_up a) a
step leaves a = when_any a.taking (leave_taking a) a
step quits a = when_any a.quitting (leave_quitting a) a
step releases a = when_any a.running (release a) a

unfoldable pub run : List Call → Admission → Admission
run [] a = a
run (c ∷ calls) a = run calls (step c a)
