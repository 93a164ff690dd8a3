-- ===== src/Admission/Tests.antt =====
-- internal/store/store.go with seventeen reads, one of which waits.
use archive_relay.Prelude.{◌≡◌, refl, false, not, ◌&&◌, List, [], ◌∷◌, ◌++◌, nat_eq}
use archive_relay.Admission.{
  read_admission_cap, new_admission, try_token, join_waiters, Call, arrives, tries, joins, takes,
  leaves, releases, run,
}
use archive_relay.Admission.Bounds.{IsAccounted, is_busy, is_token, run-bounded}

abbrev four : List Call
four =
    arrives false false
    ∷ tries
    ∷ arrives false false
    ∷ tries
    ∷ arrives false false
    ∷ tries
    ∷ arrives false false
    ∷ tries
    ∷ []

abbrev seventeen : List Call
seventeen =
    four
    ++ (four
        ++ (four
            ++ (four
                ++ (arrives false false ∷ tries ∷ joins false ∷ releases ∷ takes ∷ leaves ∷ []))))

seventeen_granted : (run seventeen new_admission).granted ≡ 17
unfolding run archive_relay.Admission.step archive_relay.Admission.arrive try_token join_waiters
    archive_relay.Admission.take_token archive_relay.Admission.leave_taking
    archive_relay.Admission.release new_admission
seventeen_granted = refl

run-bounded_example :
    let a = run seventeen new_admission in
    IsAccounted a
    × (is_token (try_token a).0 ≡ not (nat_eq a.read_sem read_admission_cap))
    × (is_busy (join_waiters false a).0 ≡ (not false && nat_eq a.read_wait read_admission_cap))
run-bounded_example = run-bounded seventeen false
