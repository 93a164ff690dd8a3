-- ===== src/Relay/Saving.antt =====
-- internal/relay/relay.go: a published event goes to the store or, if it is dated far ahead, waits in
-- the control database until it is due.
use archive_relay.Prelude.{
  ℕ, ◌+◌, ◌≤◌, ◌≡◌, refl, sym, ap, ◌∙◌, not, ◌&&◌, Bool, true, false, Option, none, some, List, [],
  ◌∷◌, Bytes, eq_bytes, leb, lookup, put, erase, lookup-erase, ==_self, if◌then◌else◌, if-cases,
  arith,
}
use archive_relay.Nostr.{Event}
use archive_relay.Classifier.{Override}
use archive_relay.Control.{Parked, save_scheduled, due_rows}
use archive_relay.Scheduler.{park, should_defer, defer_event}
use archive_relay.Store.{Backend, save_event}
use archive_relay.Relay.{Deps, World, deferred, save_hook, prevent_broadcast}

lookup-due_rows-none :
    (t : ℕ) (id : Bytes) (rows : List (Bytes × Parked))
    → lookup id rows ≡ none
    → lookup id (due_rows t rows) ≡ none
unfolding lookup due_rows
lookup-due_rows-none t id [] h = refl
lookup-due_rows-none t id ((j, p) ∷ rows) h =
    if-cases (λ (o : List (Bytes × Parked)). lookup id o ≡ none) (leb p.publish_at t)
      (λ _. ground (arith, lookup-due_rows-none t id rows))
      (λ _. ground (arith, lookup-due_rows-none t id rows))

lookup-due_rows-put :
    (t : ℕ) (id : Bytes) (p : Parked) (rows : List (Bytes × Parked))
    → lookup id (due_rows t (put id p rows)) ≡ (if leb p.publish_at t then some p else none)
unfolding put due_rows
lookup-due_rows-put t id p rows =
    let gone : lookup id (erase id rows) ≡ none =
      ground (arith, lookup-erase id id rows, ==_self id) in
    if-cases
      (λ (o : List (Bytes × Parked)). lookup id o ≡ (if leb p.publish_at t then some p else none))
      (leb p.publish_at t) (λ h. unfold lookup in ground (arith, ==_self id))
      (λ h. rw h (lookup-due_rows-none t id (erase id rows) gone))

-- The event is dated more than the buffer, in seconds, ahead of the clock; `none` is a relay with no
-- scheduler.
abbrev pub is_ahead : Option ℕ → ℕ → Event → Bool
is_ahead none now evt = false
is_ahead (some buffer) now evt = not (leb evt.created_at (now + buffer))

deferred_lem : (o : Option ℕ) (now : ℕ) (evt : Event) → deferred o now evt ≡ is_ahead o now evt
unfolding should_defer
deferred_lem none now evt = refl
deferred_lem (some buffer) now evt = ground arith

is_ahead_since :
    (o : Option ℕ) (now later : ℕ) (evt : Event)
    → now ≤ later
    → deferred o later evt ≡ (is_ahead o now evt && is_ahead o later evt)
unfolding should_defer
is_ahead_since none now later evt h = refl
is_ahead_since (some buffer) now later evt h = ground (arith, h)

module _ {S : Type 0} (backend : Backend S) (override : Override)
    (encode : Event → Option Bytes) where
  -- Of an event that khatru hands to StoreEvent, so of a kind that is not replaceable, when the control
  -- database takes its writes and the event has a JSON text: the event goes to the store exactly if it
  -- is not dated more than the buffer ahead of that time. Otherwise the store is left alone, and a look
  -- for due events at `t` finds its row exactly if its time has come. PreventBroadcast reads the clock
  -- again, and withholds the event exactly if it is dated as far ahead at both times: no event that
  -- went to the store is withheld.
  pub save_hook_lem :
      (d : Deps) (now later t : ℕ) (json : Bytes) (evt : Event) (w : World S)
      → now ≤ later
      → encode evt ≡ some json
      → let ahead = is_ahead d.buffer now evt in
        let w' = (save_hook backend override encode d now true evt w).1 in
        (w'.store ≡ (if ahead then w.store else (save_event backend override evt w.store).1))
        × (lookup evt.id (due_rows t w'.db.scheduled_events) ≡ (
            if ahead
            then (if leb evt.created_at t
                then some (record { event_json = json; publish_at = evt.created_at })
                else none)
            else lookup evt.id (due_rows t w.db.scheduled_events)))
        × (prevent_broadcast d later evt ≡ (ahead && is_ahead d.buffer later evt))
  unfolding save_hook prevent_broadcast defer_event park save_scheduled
  save_hook_lem d now later t json evt w le e =
      let ahead = is_ahead d.buffer now evt in
      let row : Parked = record { event_json = json; publish_at = evt.created_at } in
      let direct = save_event backend override evt w.store in
      let same : deferred d.buffer now evt ≡ ahead = deferred_lem d.buffer now evt in
      let P : Bool × World S → Type 0 = λ r.
        (r.1.store ≡ (if ahead then w.store else direct.1))
        × (lookup evt.id (due_rows t r.1.db.scheduled_events) ≡ (
            if ahead
            then (if leb evt.created_at t then some row else none)
            else lookup evt.id (due_rows t w.db.scheduled_events)))
        × (deferred d.buffer later evt ≡ (ahead && is_ahead d.buffer later evt)) in
      let withheld = is_ahead_since d.buffer now later evt le in
      if-cases P (deferred d.buffer now evt)
        (λ h. rw (sym same ∙ h) (
          refl,
          ap
                (λ (o : Option Bytes).
                  lookup evt.id (due_rows t (park true evt o w.db).1.scheduled_events))
                e
              ∙ lookup-due_rows-put t evt.id row w.db.scheduled_events,
          rw (sym same ∙ h) at withheld,
        ))
        (λ h. rw (sym same ∙ h) (refl, refl, rw (sym same ∙ h) at withheld))
