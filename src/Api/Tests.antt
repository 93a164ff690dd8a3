-- ===== src/Api/Tests.antt =====
-- internal/api/api.go with a query of two kinds and a signed request.
use archive_relay.Prelude.{
  ℕ, suc, ◌≤◌, ◌≡◌, ◌⊎◌, ◌↔◌, refl, true, false, Option, some, none, List, [], ◌∷◌, map, Bytes,
  bytes, length, if◌then◌else◌, arith,
}
use archive_relay.Policy.{RejectFilterBreadth}
use archive_relay.Policy.Limiter.{new_limiter}
use archive_relay.HttpAuth.{served, too_many_requests}
use archive_relay.Api.{Values, query_int, register}
use archive_relay.Api.Atoi.{pos, negsuc, atoi, digits}
use archive_relay.Api.Routes.{asked, Admitted, register-Admitted}
use archive_relay.Samples.{id_a, id_b}
use archive_relay.HttpAuth.Sample.{web, friends, daily_request}

atoi_signs :
    map atoi (bytes "-1" ∷ bytes "+7" ∷ bytes "1x" ∷ bytes "-" ∷ bytes "9223372036854775808" ∷ [])
    ≡ some (negsuc 0) ∷ some (pos 7) ∷ none ∷ none ∷ none ∷ []
unfolding atoi digits
atoi_signs = refl

query_int_default : query_int (bytes "0") 30 ≡ 30
unfolding query_int atoi digits archive_relay.Prelude.bytes_eq
query_int_default = refl

abbrev two_kinds : Values
two_kinds = record {
  id = id_a ∷ id_b ∷ [];
  author = [];
  kind = bytes "1" ∷ bytes "x" ∷ bytes "7" ∷ [];
  limit = bytes "5000";
  days = [];
}

abbrev one_kind : RejectFilterBreadth
one_kind = record { max_ids = 1; max_authors = 1; max_kinds = 1; max_tags = 1 }

register-Admitted_example :
    let x = register web [] 1060 0 (some friends) (some 600) false daily_request new_limiter in
    let l = asked web [] 1060 0 daily_request (some 600) new_limiter in
    ((x.0 ≡ served) ↔ ((l.0 ≡ true) × Admitted web [] 1060 0 daily_request false (some friends)))
    × ((l.0 ≡ true) ⊎ (x.0 ≡ too_many_requests))
    × (x.1 ≡ l.1)
register-Admitted_example =
    register-Admitted web [] 1060 0 daily_request (some friends) (some 600) false new_limiter
