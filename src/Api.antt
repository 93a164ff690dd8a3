-- ===== src/Api.antt =====
-- internal/api/api.go: the REST handlers, what stands in front of them, and how they read a request.
-- The answers of the store and of the stats service are given; JSON is left out.
pub mod Atoi
pub mod Filters
pub mod Routes
mod Tests
use archive_relay.Prelude.{
  ℕ, ◌+◌, ◌-◌, ◌*◌, ◌^◌, Bool, true, false, not, ◌&&◌, ◌||◌, Option, none, some, List, [], ◌∷◌,
  Bytes, bytes, eq_bytes, length, take, nat_eq, ltb, leb, min, ◌==◌, if◌then◌else◌,
}
use archive_relay.Nostr.{Filter, Event}
use archive_relay.Policy.{RejectFilterBreadth}
use archive_relay.Policy.Access.{Access}
use archive_relay.Policy.Limiter.{Limiter}
use archive_relay.HttpAuth.{Web, Request, Response, served, http_auth, http_when}
use archive_relay.Api.Atoi.{ℤ, pos, negsuc, atoi}

-- The values of a query's keys: all of `id`, `author` and `kind`, the first of `limit` and `days`, or "".
pub record Values : Type 0 where
  pub id : List Bytes
  pub author : List Bytes
  pub kind : List Bytes
  pub limit : Bytes
  pub days : Bytes

-- An int as the number of its 64 bits.
abbrev pub bits : ℤ → ℕ
bits (pos n) = n
bits (negsuc n) = 2 ^ 64 - (n + 1)

abbrev pub with_int : Option ℤ → List ℕ → List ℕ
with_int none out = out
with_int (some n) out = bits n ∷ out

unfoldable pub parse_ints : List Bytes → List ℕ
parse_ints [] = []
parse_ints (s ∷ ss) = with_int (atoi s) (parse_ints ss)

-- A number of at least 1, or the default.
abbrev pub at_least_one : ℕ → Option ℤ → ℕ
at_least_one def none = def
at_least_one def (some (negsuc n)) = def
at_least_one def (some (pos n)) = if ltb n 1 then def else n

unfoldable pub query_int : Bytes → ℕ → ℕ
query_int s def = if s == [] then def else at_least_one def (atoi s)

abbrev pub capped : ℕ → List Bytes → List Bytes
capped cap l = if ltb 0 cap && ltb cap (length l) then take cap l else l

unfoldable pub events_filter : Values → RejectFilterBreadth → Filter
events_filter q breadth = record {
  ids = capped breadth.max_ids q.id;
  authors = capped breadth.max_authors q.author;
  kinds = parse_ints q.kind;
  tags = [];
  since = none;
  until = none;
  limit = min (at_least_one 100 (atoi q.limit)) 1000;
}

-- An answer of a handler.
pub data Reply {ℓ} (A : Type ℓ) : Type ℓ where
  status_ok : A → Reply A
  bad_request internal_error : Reply A

unfoldable pub reply_of {ℓ} : {A : Type ℓ} → Option A → Reply A
reply_of none = internal_error
reply_of (some a) = status_ok a

-- daily and dau: what the service answers for so many days.
unfoldable pub days_handler {ℓ} : {A : Type ℓ} → (ℕ → Option A) → Values → Reply A
days_handler query q = reply_of (query (query_int q.days 30))

-- noteEngagement and followers, of what stands behind the pattern in the path.
unfoldable pub name_handler {ℓ} : {A : Type ℓ} → (Bytes → Option A) → Bytes → Reply A
name_handler query name = if name == [] then bad_request else reply_of (query name)

unfoldable pub events_handler :
    (Filter → Option (List Event)) → RejectFilterBreadth → Values → Reply (List Event)
events_handler query_events breadth q = reply_of (query_events (events_filter q breadth))

-- Register: the route of a handler. `per_minute` and `access` are `none` if they are nil.
module _ (web : Web) (service_host : Bytes) (now clock : ℕ) where
  abbrev pub authed : Bool → Option Access → Request → Response
  authed public none r = served
  authed public (some a) r = if public then served else http_auth web service_host now a r

  abbrev pub limited_by : Option ℕ → Request → Response → Limiter → Response × Limiter
  limited_by none r behind l = (behind, l)
  limited_by (some per_minute) r behind l = http_when web true per_minute clock r behind l

  unfoldable pub register : Option Access → Option ℕ → Bool → Request → Limiter → Response × Limiter
  register access per_minute public r l = limited_by per_minute r (authed public access r) l

-- The routes, with whether they are public.
abbrev pub routes : List (Bytes × Bool)
routes =
    (bytes "/v1/health", true)
    ∷ (bytes "/v1/stats/daily", false)
    ∷ (bytes "/v1/stats/dau", false)
    ∷ (bytes "/v1/note/", false)
    ∷ (bytes "/v1/pubkey/", false)
    ∷ (bytes "/v1/events", false)
    ∷ []
