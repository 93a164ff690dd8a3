-- ===== src/Relay/Gates.antt =====
-- internal/relay/relay.go: which hook's refusal a client sees, and which messages its limiter counts.
use archive_relay.Prelude.{
  ℕ, ◌≡◌, refl, sym, ap, ◌∙◌, Bool, true, false, ◌&&◌, Option, none, some, List, [], ◌∷◌, ◌++◌,
  if◌then◌else◌, append_assoc, append-nil,
}
use archive_relay.Nostr.{Event, Filter}
use archive_relay.Policy.{reject_out_of_scope, reject}
use archive_relay.Policy.Access.{Access, gate}
use archive_relay.Policy.Limiter.{Limiter}
use archive_relay.Relay.{
  Deps, EventHook, access_event, scope_event, limiter_event, FilterHook, access_filter,
  limiter_filter, breadth_filter, enabled, is_set, prepend, reject_event_hooks, reject_filter_hooks,
  Client, Reason, policy_reason, ask_access, ask_limiter, ask_event, ask_filter, Dispatch,
}

abbrev pub or_else : Option Reason → Option Reason → Option Reason
or_else none other = other
or_else (some why) other = some why

abbrev pub passes : Option Reason → Bool
passes none = true
passes (some why) = false

-- The hooks one after the other, up to the first that rejects.
asked :
    {G : Type 0}
    → (G → Limiter → Option Reason × Limiter)
    → List G
    → Limiter
    → Option Reason × Limiter
asked ask [] l = (none, l)
asked ask (h ∷ hooks) l =
    let rest = asked ask hooks (ask h l).1 in if passes (ask h l).0 then rest else ask h l

refusal-asked :
    {G : Type 0} (khatru : Dispatch G) (ask : G → Limiter → Option Reason × Limiter)
    (hooks : List G) (l : Limiter)
    → khatru.refusal ask hooks l ≡ asked ask hooks l
unfolding asked
refusal-asked khatru ask [] l = khatru.refusal-nil ask l
refusal-asked khatru ask (h ∷ hooks) l =
    by_reason (ask h l).0 refl (refusal-asked khatru ask hooks (ask h l).1)
  where
    by_reason :
        (o : Option Reason)
        → (ask h l).0 ≡ o
        → khatru.refusal ask hooks (ask h l).1 ≡ asked ask hooks (ask h l).1
        → khatru.refusal ask (h ∷ hooks) l
          ≡ (if passes (ask h l).0 then asked ask hooks (ask h l).1 else ask h l)
    by_reason none e ih =
        khatru.refusal-passed ask h hooks l e
        ∙ ih
        ∙ sym (ap (λ o. if passes o then asked ask hooks (ask h l).1 else ask h l) e)
    by_reason (some why) e ih =
        khatru.refusal-refused ask h hooks l why e
        ∙ sym (ap (λ o. if passes o then asked ask hooks (ask h l).1 else ask h l) e)

-- A hook that would let everything pass may stand in the list or not.
asked_if :
    {G : Type 0} (ask : G → Limiter → Option Reason × Limiter) (b : Bool) (h : G) (hooks : List G)
    (l : Limiter)
    → (b ≡ false → ask h l ≡ (none, l))
    → asked ask ((if b then h ∷ [] else []) ++ hooks) l ≡ asked ask (h ∷ hooks) l
unfolding asked
asked_if ask true h hooks l off = refl
asked_if ask false h hooks l off =
    sym (ap (λ r. if passes r.0 then asked ask hooks r.1 else r) (off refl))

-- Asking an access list that is off, or no limiter, changes nothing.
access_off : (c : Client) (o : Option Access) → enabled o ≡ false → ask_access c o ≡ none
unfolding gate
access_off c none h = refl
access_off c (some a) h = rw h refl

limiter_off :
    (now : ℕ) (c : Client) (o : Option ℕ) (l : Limiter)
    → is_set o ≡ false
    → ask_limiter now c o l ≡ (none, l)
limiter_off now c none l h = refl
limiter_off now c (some n) l h = cc

in_order :
    (a b : Option Reason) (r : Option Reason × Limiter) (l : Limiter)
    → (if passes a then (if passes b then r else (b, l)) else (a, l))
      ≡ (or_else a (or_else b r.0), if passes a && passes b then r.1 else l)
in_order none none r l = refl
in_order none (some why) r l = refl
in_order (some why) b r l = refl

last : (r : Option Reason × Limiter) → (if passes r.0 then (none, r.1) else r) ≡ r
last (none, l) = refl
last (some why, l) = refl

in_order_last :
    (a b : Option Reason) (r : Option Reason × Limiter) (l : Limiter)
    → (if passes a
        then (if passes r.0 then (if passes b then (none, r.1) else (b, r.1)) else r)
        else (a, l))
      ≡ (or_else a (or_else r.0 b), if passes a then r.1 else l)
in_order_last none b (none, l') l = last (b, l')
in_order_last none b (some why, l') l = refl
in_order_last (some why) b r l = refl

module _ (d : Deps) (now : ℕ) (c : Client) where
  asked_event :
      (evt : Event) (l : Limiter)
      → asked (ask_event d now c evt) (reject_event_hooks d) l ≡ (
          let a = ask_access c d.access in
          let b = policy_reason (reject_out_of_scope evt) in
          let r = ask_limiter now c d.per_minute l in
          (or_else a (or_else b r.0), if passes a && passes b then r.1 else l))
  unfolding asked reject_event_hooks prepend ask_event
  asked_event evt l =
      let ask = ask_event d now c evt in
      let first = if enabled d.access then access_event ∷ [] else [] in
      let limit = if is_set d.per_minute then limiter_event ∷ [] else [] in
      let a = ask_access c d.access in
      let b = policy_reason (reject_out_of_scope evt) in
      let r = ask_limiter now c d.per_minute l in
      ap (λ (hooks : List EventHook). asked ask hooks l)
        (append_assoc first (scope_event ∷ []) limit)
      ∙ asked_if ask (enabled d.access) access_event (scope_event ∷ limit) l
          (λ h. ap (λ (o : Option Reason). (o, l)) (access_off c d.access h))
      ∙ (ap
          (λ (x : Option Reason × Limiter).
            if passes a then (if passes b then x else (b, l)) else (a, l))
          (ap (λ (hooks : List EventHook). asked ask hooks l) (sym (append-nil limit))
            ∙ asked_if ask (is_set d.per_minute) limiter_event [] l
                (limiter_off now c d.per_minute l)
            ∙ last r))
      ∙ in_order a b r l

  asked_filter :
      (f : Filter) (l : Limiter)
      → asked (ask_filter d now c f) (reject_filter_hooks d) l ≡ (
          let a = ask_access c d.access in
          let b = policy_reason (reject d.breadth f) in
          let r = ask_limiter now c d.per_minute l in
          (or_else a (or_else r.0 b), if passes a then r.1 else l))
  unfolding asked reject_filter_hooks prepend ask_filter
  asked_filter f l =
      let ask = ask_filter d now c f in
      let first = if enabled d.access then access_filter ∷ [] else [] in
      let limit = if is_set d.per_minute then limiter_filter ∷ [] else [] in
      let a = ask_access c d.access in
      let b = policy_reason (reject d.breadth f) in
      let r = ask_limiter now c d.per_minute l in
      ap (λ (hooks : List FilterHook). asked ask hooks l)
        (append_assoc first limit (breadth_filter ∷ []))
      ∙ asked_if ask (enabled d.access) access_filter (limit ++ breadth_filter ∷ []) l
          (λ h. ap (λ (o : Option Reason). (o, l)) (access_off c d.access h))
      ∙ (ap (λ (x : Option Reason × Limiter). if passes a then x else (a, l))
          (asked_if ask (is_set d.per_minute) limiter_filter (breadth_filter ∷ []) l
            (limiter_off now c d.per_minute l)))
      ∙ in_order_last a b r l

  -- With a khatru that asks the hooks of a list in turn: of a published event the client sees the
  -- refusal of the access list if there is one, else that of the kind's scope, else that of the rate
  -- limit; and the limiter counts it only if access and scope let it pass. Of a query, and of a count,
  -- it sees the refusal of the access list, else that of the rate limit, else that of the breadth, and
  -- the limiter counts what the access list lets pass, too broad or not.
  pub refusal-hooks :
      (on_events : Dispatch EventHook) (on_filters : Dispatch FilterHook) (evt : Event) (f : Filter)
      (l : Limiter)
      → let access = ask_access c d.access in
        let scope = policy_reason (reject_out_of_scope evt) in
        let breadth = policy_reason (reject d.breadth f) in
        let rate = ask_limiter now c d.per_minute l in
        (on_events.refusal (ask_event d now c evt) (reject_event_hooks d) l ≡ (
          or_else access (or_else scope rate.0),
          if passes access && passes scope then rate.1 else l,
        ))
        × (on_filters.refusal (ask_filter d now c f) (reject_filter_hooks d) l
            ≡ (or_else access (or_else rate.0 breadth), if passes access then rate.1 else l))
  refusal-hooks on_events on_filters evt f l = (
    refusal-asked on_events (ask_event d now c evt) (reject_event_hooks d) l ∙ asked_event evt l,
    refusal-asked on_filters (ask_filter d now c f) (reject_filter_hooks d) l ∙ asked_filter f l,
  )
