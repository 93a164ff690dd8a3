-- ===== src/Policy/Breadth.antt =====
-- internal/policy/reject.go: which filters pass.
use archive_relay.Prelude.{
  ℕ, ◌≤◌, ◌≡◌, ◌↔◌, ◌⊎◌, Bool, false, Option, none, some, length, if◌then◌else◌, arith,
}
use archive_relay.Nostr.{Filter}
use archive_relay.Policy.{Refused, RejectFilterBreadth, exceeds, tag_values, reject}

abbrev pub Fits : ℕ → ℕ → Type 0
Fits n cap = (cap ≡ 0) ⊎ (n ≤ cap)

exceeds-Fits : (n cap : ℕ) → (exceeds n cap ≡ false) ↔ Fits n cap
exceeds-Fits n cap = ground arith

passes :
    (test : Bool) (r : Refused) (o : Option Refused)
    → ((if test then some r else o) ≡ none) ↔ ((test ≡ false) × (o ≡ none))
passes test r o = ground arith

-- A filter passes the breadth check exactly if each of its four sizes, the wanted tag values
-- counted together, has no limit or is within it.
pub reject-none_iff :
    (r : RejectFilterBreadth) (f : Filter)
    → (reject r f ≡ none) ↔ (
        Fits (length f.ids) r.max_ids
        × Fits (length f.authors) r.max_authors
        × Fits (length f.kinds) r.max_kinds
        × Fits (tag_values f.tags) r.max_tags)
unfolding reject
reject-none_iff r f = ground (
  arith,
  exceeds-Fits (length f.ids) r.max_ids,
  exceeds-Fits (length f.authors) r.max_authors,
  exceeds-Fits (length f.kinds) r.max_kinds,
  exceeds-Fits (tag_values f.tags) r.max_tags,
)
