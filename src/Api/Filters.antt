-- ===== src/Api/Filters.antt =====
-- internal/api/api.go: the filter of GET /v1/events against the limits on filters.
use archive_relay.Prelude.{
  ℕ, suc, ◌^◌, ◌<◌, ◌≤◌, ◌≡◌, refl, ap, false, ◌&&◌, Option, none, some, List, [], ◌∷◌, map, Bytes,
  length, length-take, ltb, All, if◌then◌else◌, if-cases, arith,
}
use archive_relay.Policy.{too_many_kinds, RejectFilterBreadth, exceeds, reject}
use archive_relay.Api.Atoi.{ℤ, pos, negsuc, atoi, itoa, atoi-itoa}
use archive_relay.Api.{Values, parse_ints, at_least_one, capped, events_filter}

length-capped : (cap : ℕ) (l : List Bytes) → exceeds (length (capped cap l)) cap ≡ false
length-capped cap l =
    if-cases (λ (x : List Bytes). exceeds (length x) cap ≡ false) (ltb 0 cap && ltb cap (length l))
      (λ h. ground (arith, length-take cap l)) (λ h. ground arith)

at_least_one-le : (def : ℕ) (o : Option ℤ) → 1 ≤ def → 1 ≤ at_least_one def o
at_least_one-le def none h = h
at_least_one-le def (some (negsuc n)) h = h
at_least_one-le def (some (pos n)) h = ground arith

parse_ints-itoa :
    (kinds : List ℕ)
    → All (λ k. k < 2 ^ 63) kinds
    → parse_ints (map (λ k. itoa (suc k) k) kinds) ≡ kinds
unfolding parse_ints
parse_ints-itoa [] h = refl
parse_ints-itoa (k ∷ kinds) h = rw (atoi-itoa k h.0) (ap (λ l. k ∷ l) (parse_ints-itoa kinds h.1))

-- Whatever the query holds, the limit of its filter is between 1 and 1000, and of the limits on the
-- breadth of filters the filter can break only that on kinds, which it breaks exactly if more kinds
-- were given. Kinds below 2^63 in decimal spelling are read as they are.
pub events_filter_lem :
    (q : Values) (breadth : RejectFilterBreadth) (kinds : List ℕ)
    → All (λ k. k < 2 ^ 63) kinds
    → let f = events_filter q breadth in
      (1 ≤ f.limit)
      × (f.limit ≤ 1000)
      × (reject breadth f ≡ (
          if exceeds (length (parse_ints q.kind)) breadth.max_kinds
          then some too_many_kinds
          else none))
      × ((events_filter (record q { kind = map (λ k. itoa (suc k) k) kinds }) breadth).kinds
          ≡ kinds)
unfolding events_filter reject
events_filter_lem q breadth kinds h = (
  ground (arith, at_least_one-le 100 (atoi q.limit)),
  omega arith,
  rw (length-capped breadth.max_ids q.id, length-capped breadth.max_authors q.author)
      (ground arith),
  parse_ints-itoa kinds h,
)
