-- ===== src/HttpAuth/Sample.antt =====
-- A request for the daily statistics that an allowed key has signed, for the tests.
use archive_relay.Prelude.{true, some, none, [], ◌∷◌, bytes, eq_bytes, ◌==◌, if◌then◌else◌}
use archive_relay.Nostr.{Event}
use archive_relay.Policy.Access.{Access}
use archive_relay.HttpAuth.{Request, Web}

abbrev pub auth_event : Event
auth_event = record {
  id = bytes "id";
  pubkey = bytes "alice";
  created_at = 1000;
  kind = 27235;
  tags = [];
  content = [];
  sig = [];
}

abbrev pub web : Web
web = record {
  trim_space = λ s. s;
  decode_base64 = λ s. some s;
  unmarshal = λ s. some auth_event;
  find = λ name tags. if name == bytes "u" then some (bytes "/v1/stats/daily") else none;
  parse_url = λ u. some (record { path = u; hostname = [] });
  equal_fold = λ a b. a == b;
  check_signature = λ evt. true;
  is_public_ip = λ ip. ip == bytes "8.8.8.8";
  host_of = λ addr. addr;
}

abbrev pub friends : Access
friends = record {
  enabled = true;
  admin = [];
  static = bytes "alice" ∷ [];
  allowed = bytes "alice" ∷ [];
}

abbrev pub daily_request : Request
daily_request = record {
  authorization = bytes "Nostr e30=";
  forwarded_for = bytes "10.0.0.1,8.8.8.8";
  remote_addr = bytes "1.1.1.1";
  method = bytes "GET";
  path = bytes "/v1/stats/daily";
}
