-- ===== src/Store/Lifecycle/Tests.antt =====
-- internal/store/store.go: Init on a server whose read pool does not answer its ping.
use archive_relay.Prelude.{ℕ, ◌+◌, ◌≡◌, refl, true, false, none, some, [], bytes}
use archive_relay.Schema.{ClickHouse, Pool}
use archive_relay.Store.Lifecycle.{
  PoolName, Dial, silent, answers, bootstrap, write_pool, read_pool, stats_pool, is_identifier,
  all_word, init, close,
}
use archive_relay.Store.Lifecycle.Closed.{Leaves, unclosed, is_up, close-init}

-- It counts the statements.
abbrev willing : ClickHouse ℕ
willing = record {
  exec = λ q n. (true, n + 1);
  have_idx = λ table n. some 1;
  mat_total = λ table n. some 1;
  probe_dictionary = λ n. true;
}

abbrev no_reads : PoolName → Dial
no_reads bootstrap = answers
no_reads write_pool = answers
no_reads read_pool = silent
no_reads stats_pool = answers

abbrev unsent : Pool ℕ
unsent = record { db = 0; sent = [] }

names_checked :
    (is_identifier (bytes "relay_2") ≡ true)
    × (is_identifier (bytes "2relay") ≡ false)
    × (is_identifier (bytes "x`; DROP") ≡ false)
unfolding is_identifier all_word
names_checked = (refl, refl, refl)

close-init_example :
    let r = init willing no_reads (λ t. []) (λ n. some 0) (bytes "relay") unsent in
    Leaves (unclosed r.0) (close r.1).journal × (r.0 ≡ none → is_up r.1 ≡ true)
close-init_example = close-init willing no_reads (λ t. []) (λ n. some 0) (bytes "relay") unsent
