-- ===== src/HttpAuth/Tests.antt =====
-- internal/policy/auth.go with a signed request for the daily statistics.
use archive_relay.Prelude.{
  ℕ, ◌≡◌, ◌⊎◌, ◌↔◌, refl, true, false, Option, some, none, List, [], ◌∷◌, Bytes, bytes, eq_bytes,
  contains, ◌==◌, if◌then◌else◌,
}
use archive_relay.HttpAuth.{
  http_auth, served, cut_prefix, split, client_ip, stale, unauthorized, http_auth_pubkey,
}
use archive_relay.HttpAuth.Signed.{Signed, http_auth-Signed}
use archive_relay.HttpAuth.Sample.{web, friends, daily_request}

daily_served : http_auth web [] 1060 friends daily_request ≡ served
unfolding http_auth http_auth_pubkey cut_prefix archive_relay.Prelude.bytes_eq contains
daily_served = refl

daily_stale : http_auth web [] 1061 friends daily_request ≡ unauthorized stale
unfolding http_auth http_auth_pubkey cut_prefix archive_relay.Prelude.bytes_eq
daily_stale = refl

forwarded_ip : client_ip web daily_request ≡ bytes "8.8.8.8"
unfolding client_ip split archive_relay.Prelude.bytes_eq
forwarded_ip = refl

http_auth-Signed_example : (http_auth web [] 1060 friends daily_request ≡ served) ↔ (
    (true ≡ false)
    ⊎ ((pk : Bytes) × Signed web [] 1060 daily_request pk × (contains pk friends.allowed ≡ true)))
http_auth-Signed_example = http_auth-Signed web [] 1060 daily_request friends
