-- ===== src/HttpAuth.antt =====
-- internal/policy/auth.go and ratelimit.go: what an HTTP request must carry (NIP-98), and the limiter
-- in front of a handler. Base64, JSON, URLs, texts in Unicode and the signature check are parameters
-- (`Web`).
pub mod Signed
pub mod Sample
mod Tests
use archive_relay.Prelude.{
  ℕ, ◌+◌, Bool, true, false, not, ◌&&◌, ◌||◌, Option, none, some, List, [], ◌∷◌, Bytes, bytes,
  eq_bytes, nat_eq, ltb, ◌==◌, if◌then◌else◌,
}
use archive_relay.Nostr.{Event, Tags}
use archive_relay.Policy.Access.{Access, is_allowed}
use archive_relay.Policy.Limiter.{Limiter, allow}

pub record Request : Type 0 where
  pub authorization : Bytes  -- the headers, empty if absent
  pub forwarded_for : Bytes
  pub remote_addr : Bytes
  pub method : Bytes
  pub path : Bytes

pub record Url : Type 0 where
  pub path : Bytes
  pub hostname : Bytes

pub record Web : Type 0 where
  pub trim_space : Bytes → Bytes
  pub decode_base64 : Bytes → Option Bytes
  pub unmarshal : Bytes → Option Event
  pub find : Bytes → Tags → Option Bytes  -- the value of the first tag of this name
  pub parse_url : Bytes → Option Url
  pub equal_fold : Bytes → Bytes → Bool
  pub check_signature : Event → Bool
  pub is_public_ip : Bytes → Bool  -- an IP, global unicast and not private
  pub host_of : Bytes → Bytes  -- SplitHostPort, empty on an error

pub data AuthError : Type 0 where
  no_scheme bad_base64 bad_json wrong_kind no_u_tag wrong_path wrong_host wrong_method stale
        bad_signature :
      AuthError

pub data Checked {ℓ} (A : Type ℓ) : Type ℓ where
  ok : A → Checked A
  refused : AuthError → Checked A

infixl 5 ◌>>=◌ ◌>>◌
abbrev pub ◌>>=◌ {ℓ κ} : {A : Type ℓ} {B : Type κ} → Checked A → (A → Checked B) → Checked B
ok a >>= f = f a
refused e >>= f = refused e

abbrev pub ◌>>◌ {ℓ} : {B : Type ℓ} → Checked (Unit {0}) → Checked B → Checked B
m >> k = m >>= λ _. k

abbrev pub guard : Bool → AuthError → Checked (Unit {0})
guard true e = ok tt
guard false e = refused e

abbrev pub found {ℓ} : {A : Type ℓ} → Option A → AuthError → Checked A
found none e = refused e
found (some a) e = ok a

abbrev pub http_auth_window : ℕ
http_auth_window = 60

abbrev pub kind_http_auth : ℕ
kind_http_auth = 27235

unfoldable pub cut_prefix : Bytes → Bytes → Option Bytes
cut_prefix [] s = some s
cut_prefix (p ∷ prefix) [] = none
cut_prefix (p ∷ prefix) (c ∷ s) =
    let rest = cut_prefix prefix s in if nat_eq p c then rest else none

abbrev pub is_fresh : ℕ → Event → Bool
is_fresh now evt =
    not (ltb (now + http_auth_window) evt.created_at)
    && not (ltb (evt.created_at + http_auth_window) now)

module _ (web : Web) (service_host : Bytes) (now : ℕ) where
  open web use {trim_space, decode_base64, unmarshal, find, parse_url, equal_fold, check_signature}

  abbrev pub host_fits : Url → Bool
  host_fits u = u.hostname == [] || (service_host == [] || equal_fold u.hostname service_host)

  abbrev pub method_fits : Option Bytes → Bytes → Bool
  method_fits none method = true
  method_fits (some m) method = equal_fold m method

  unfoldable pub http_auth_pubkey : Request → Checked Bytes
  http_auth_pubkey r = do
    b64 ← found (cut_prefix (bytes "Nostr ") r.authorization) no_scheme
    raw ← found (decode_base64 (trim_space b64)) bad_base64
    evt ← found (unmarshal raw) bad_json
    guard (nat_eq evt.kind kind_http_auth) wrong_kind
    u ← found (find (bytes "u") evt.tags) no_u_tag
    parsed ← found (parse_url u) wrong_path
    guard (parsed.path == r.path) wrong_path
    guard (host_fits parsed) wrong_host
    guard (method_fits (find (bytes "method") evt.tags) r.method) wrong_method
    guard (is_fresh now evt) stale
    guard (check_signature evt) bad_signature
    ok evt.pubkey

-- `served` is the call of the handler behind.
pub data Response : Type 0 where
  served forbidden too_many_requests : Response
  unauthorized : AuthError → Response

abbrev pub admit : Access → Checked Bytes → Response
admit a (refused e) = unauthorized e
admit a (ok pk) = if is_allowed a pk then served else forbidden

unfoldable pub http_auth : Web → Bytes → ℕ → Access → Request → Response
http_auth web service_host now a r =
    if not a.enabled then served else admit a (http_auth_pubkey web service_host now r)

-- The first public address of X-Forwarded-For, whose parts were split at the commas.
abbrev pub first_public : Web → List Bytes → Bytes → Bytes
first_public web [] addr = web.host_of addr
first_public web (v ∷ parts) addr =
    let rest = first_public web parts addr in
    if web.is_public_ip (web.trim_space v) then web.trim_space v else rest

abbrev pub put_char : ℕ → ℕ → List Bytes → List Bytes
put_char sep c [] = (c ∷ []) ∷ []
put_char sep c (part ∷ parts) = if nat_eq c sep then [] ∷ part ∷ parts else (c ∷ part) ∷ parts

unfoldable pub split : ℕ → Bytes → List Bytes
split sep [] = [] ∷ []
split sep (c ∷ s) = put_char sep c (split sep s)

unfoldable pub client_ip : Web → Request → Bytes
client_ip web r =
    first_public web (if r.forwarded_for == [] then [] else split b',' r.forwarded_for)
      r.remote_addr

abbrev pub limited : Bool × Limiter → Response → Response × Limiter
limited (true, l) behind = (behind, l)
limited (false, l) behind = (too_many_requests, l)

-- HTTPWhen, with the test already made; the limiter's clock runs in nanoseconds.
unfoldable pub http_when : Web → Bool → ℕ → ℕ → Request → Response → Limiter → Response × Limiter
http_when web cond per_minute clock r behind l =
    if cond then limited (allow per_minute clock (client_ip web r) l) behind else (behind, l)
