-- ===== src/Policy/Tests.antt =====
-- internal/policy with two callers.
use archive_relay.Prelude.{
  ◌≡◌, refl, true, false, some, List, [], ◌∷◌, bytes_eq, eq_bytes, ◌-◌, min, contains, insert,
  delete, lookup, put, erase, ◌==◌, arith,
}
use archive_relay.Samples.{id_a, id_b}
use archive_relay.Control.{empty_db, load_allowed_set, allow_pubkey, revoke_pubkey}
use archive_relay.Policy.Access.{
  Access, rebuild, add_all, gate, Management, allows, revokes, refreshes, begin, finish_call, Step,
  begins, finishes, pick, step, run,
}
use archive_relay.Policy.Access.InSync.{at_start, granted, is_none}
use archive_relay.Policy.Limiter.{
  RlWindow, Limiter, new_limiter, allow, lazy_gc, sweep, current_window,
}
use archive_relay.Policy.Limiter.Window.{Call, requests, allowances, allowances_lem}

abbrev friends : Access
friends = record { enabled = true; admin = []; static = id_a ∷ []; allowed = id_a ∷ [] }

abbrev changes : List Management
changes = allows true 5 id_b [] ∷ revokes true id_a ∷ refreshes false ∷ []

-- The refresh loads the table before the revocation and rebuilds the cache after it.
abbrev overlapped : List Step
overlapped =
    begins (allows true 5 id_b [])
    ∷ finishes 0
    ∷ begins (refreshes true)
    ∷ begins (revokes true id_b)
    ∷ finishes 0
    ∷ finishes 0
    ∷ []

readmitted :
    let s = run overlapped (at_start friends empty_db) in
    (is_none (gate s.access true id_b) ≡ true) × (granted id_b s.db ≡ false)
unfolding run step pick begin finish_call rebuild add_all gate allow_pubkey revoke_pubkey
    load_allowed_set contains insert delete lookup put erase bytes_eq
readmitted = (refl, refl)

abbrev after_one : Limiter
after_one = (allow 2 100 id_a new_limiter).1

abbrev first_window : RlWindow
first_window = record { start = 100; count = 1 }

after_one_counts : lookup id_a after_one.counts ≡ some first_window
unfolding allow lazy_gc sweep lookup put erase current_window bytes_eq
after_one_counts = refl

abbrev calls : List Call
calls = (110, id_a) ∷ (120, id_b) ∷ (130, id_a) ∷ (140, id_a) ∷ []

id_a_named : (id_a == []) ≡ false
unfolding bytes_eq
id_a_named = refl

allowances_lem_example : allowances 2 id_a calls after_one ≡ min (requests id_a calls) (2 - 1)
allowances_lem_example =
    allowances_lem 2 id_a calls first_window after_one refl id_a_named after_one_counts
      (omega arith, (omega arith, (omega arith, (omega arith, tt))))
