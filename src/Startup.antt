-- ===== src/Startup.antt =====
-- cmd/archive-relay/main.go: what main starts with, from the configuration, the flag of the sources and
-- what the control database, the store and the allow-list answer.
pub mod Sources
pub mod Gated
mod Tests
use archive_relay.Prelude.{
  ℕ, Bool, true, false, not, ◌||◌, Option, none, some, List, [], ◌∷◌, Bytes, bytes, eq_bytes,
  is_nil, ◌==◌, if◌then◌else◌,
}
use archive_relay.Texts.{split_texts}
use archive_relay.Config.{Config, Auth}
use archive_relay.Control.{Db}
use archive_relay.Policy.{RejectFilterBreadth}
use archive_relay.Policy.Access.{Access, new_access}
use archive_relay.Relay.{Deps}

unfoldable pub split_sources : Bytes → List Bytes
split_sources s = split_texts b',' s

-- What main hands on: the dependencies of the relay, the URL that it is known by, the relays of the
-- firehose, and whether the priority crawler runs.
pub record Running : Type 0 where
  pub deps : Deps
  pub service_url : Bytes
  pub sources : List Bytes
  pub priority : Bool

abbrev pub granted_access : Option Access → Option (Option Access)
granted_access none = none
granted_access (some a) = some (some a)

-- `none` is an exit with an error; `loads` is whether the table of the allowed keys can be read.
unfoldable pub access_of : Auth → Bytes → Bool → Db → Option (Option Access)
access_of auth service_url loads db =
    if not auth.enabled
    then some none
    else if service_url == []
    then none
    else granted_access (new_access true auth.allow_pubkeys auth.admin_pubkeys loads db)

unfoldable pub deps_of : Config → Option Access → Deps
deps_of cfg access = record {
  buffer = some 60;
  per_minute = some 600;
  breadth = record {
    max_ids = cfg.policy.max_ids;
    max_authors = cfg.policy.max_authors;
    max_kinds = cfg.policy.max_kinds;
    max_tags = cfg.policy.max_tags;
  };
  access = access;
  default_since_hours = cfg.policy.default_since_hours;
}

abbrev pub running : Config → Bytes → Option (Option Access) → Option Running
running cfg sources none = none
running cfg sources (some access) = some (record {
  deps = deps_of cfg access;
  service_url = cfg.relay.service_url;
  sources = split_sources sources;
  priority = not (is_nil cfg.crawler.priority_pubkeys) || not (is_nil cfg.crawler.relays);
})

abbrev pub started : Bytes → Bool → Bool → Bool → Db → Option Config → Option Running
started sources opens inits loads db none = none
started sources opens inits loads db (some cfg) =
    if not opens
    then none
    else if not inits
    then none
    else running cfg sources (access_of cfg.auth cfg.relay.service_url loads db)

-- `opens` and `inits` are whether control.Open and the Init of the store succeed.
unfoldable pub main : Bytes → Bool → Bool → Bool → Db → Option Config → Option Running
main sources opens inits loads db cfg = started sources opens inits loads db cfg
