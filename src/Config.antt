-- ===== src/Config.antt =====
-- internal/config/config.go: the configuration with its defaults, and Load. The counts are not
-- negative; durations are nanoseconds. The tiers of `classifier` are named right.
use archive_relay.Prelude.{
  ℕ, ◌*◌, ◌^◌, Bool, false, Option, none, some, List, [], Bytes, bytes, eq_bytes, ◌==◌,
  if◌then◌else◌,
}
use archive_relay.Classifier.{Override}

pub record RelayConfig : Type 0 where
  pub addr : Bytes
  pub service_url : Bytes

pub record ClickHouseConfig : Type 0 where
  pub addr : Bytes
  pub database : Bytes
  pub username : Bytes
  pub password : Bytes

pub record SqliteConfig : Type 0 where
  pub path : Bytes

pub record BatchConfig : Type 0 where
  pub max_size : ℕ
  pub max_age : ℕ

pub record Retention : Type 0 where
  pub permanent : Bytes
  pub archive : Bytes
  pub social : Bytes

pub record PolicyConfig : Type 0 where
  pub max_ids : ℕ
  pub max_authors : ℕ
  pub max_kinds : ℕ
  pub max_tags : ℕ
  pub default_since_hours : ℕ

pub record CrawlerConfig : Type 0 where
  pub priority_pubkeys : List Bytes
  pub relays : List Bytes
  pub interval : ℕ

pub record Auth : Type 0 where
  pub enabled : Bool
  pub allow_pubkeys : List Bytes
  pub admin_pubkeys : List Bytes

pub record Config : Type 0 where
  pub relay : RelayConfig
  pub clickhouse : ClickHouseConfig
  pub sqlite : SqliteConfig
  pub batch : BatchConfig
  pub retention : Retention
  pub classifier : Override
  pub policy : PolicyConfig
  pub crawler : CrawlerConfig
  pub auth : Auth

abbrev pub second : ℕ
second = 10 ^ 9

unfoldable pub defaults : Config
defaults = record {
  relay = record { addr = bytes ":3334"; service_url = [] };
  clickhouse = record {
    addr = bytes "localhost:9000";
    database = bytes "archive_relay";
    username = bytes "default";
    password = [];
  };
  sqlite = record { path = bytes "./control.db" };
  batch = record { max_size = 5000; max_age = 5 * second };
  retention = record { permanent = []; archive = bytes "10 YEAR"; social = bytes "1 YEAR" };
  classifier = [];
  policy = record {
    max_ids = 1000;
    max_authors = 1000;
    max_kinds = 20;
    max_tags = 256;
    default_since_hours = 48;
  };
  crawler = record { priority_pubkeys = []; relays = []; interval = 600 * second };
  auth = record { enabled = false; allow_pubkeys = []; admin_pubkeys = [] };
}

-- yaml.Unmarshal sets the fields that the file names, or fails. `read` is os.ReadFile.
abbrev pub parsed : (Bytes → Config → Option Config) → Option Bytes → Option Config
parsed unmarshal none = none
parsed unmarshal (some text) = unmarshal text defaults

unfoldable pub load :
    (Bytes → Option Bytes) → (Bytes → Config → Option Config) → Bytes → Option Config
load read unmarshal path = if path == [] then some defaults else parsed unmarshal (read path)
