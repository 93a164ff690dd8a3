-- ===== src/Tombstones/Tests.antt =====
-- internal/store/tombstone.go with an insert that fails once.
use archive_relay.Prelude.{◌+◌, ◌≤◌, ◌≡◌, true, false, List, [], ◌∷◌, bytes, length}
use archive_relay.Samples.{id_a, id_b}
use archive_relay.Tombstones.{
  TombstoneReq, retained_max, new_tombstone_writer, Reload, Action, pushes, receives, ticks, run,
}
use archive_relay.Tombstones.Conserve.{run-counted}

abbrev req_a : TombstoneReq
req_a = record { id = id_a; reason = bytes "replaced"; deleted_by = [] }

abbrev req_b : TombstoneReq
req_b = record { id = id_b; reason = bytes "deleted"; deleted_by = [] }

abbrev at_once : Reload
at_once = record { now = 5000; execs = true; probes = true; found = true }

abbrev failed_once : List Action
failed_once =
    pushes req_a
    ∷ receives (λ i. true) at_once
    ∷ ticks (λ i. false) at_once
    ∷ pushes req_b
    ∷ ticks (λ i. true) at_once
    ∷ []

run-counted_example :
    let w = run failed_once new_tombstone_writer in
    (length w.accepted ≡ length w.inserted + length w.buf + length w.inq + w.dropped + w.reported)
    × (length w.buf ≤ retained_max)
run-counted_example = run-counted failed_once
