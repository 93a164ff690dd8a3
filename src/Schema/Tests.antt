-- ===== src/Schema/Tests.antt =====
-- internal/store/schema.go on a ClickHouse that counts what it is sent.
use archive_relay.Prelude.{ℕ, ◌+◌, ◌≡◌, refl, true, some, [], Bytes, bytes, length, leb}
use archive_relay.Classifier.{Tier}
use archive_relay.Texts.{split, trim_left, trim_right, trim_space, is_space, split_texts}
use archive_relay.Schema.Text.{
  tags_default_expr, tag_e_default_expr, tag_p_default_expr, tag_t_default_expr, tag_d_default_expr,
  tier_columns_type, tier_columns_type_no_indexes, ttl_clause, tier_ddl, tombstones_ddl,
  snapshots_ddl, feed_ddl, events_view_ddl,
}
use archive_relay.Schema.{ClickHouse, Pool}
use archive_relay.Schema.Runs.{Runs}

-- It refuses everything from the tenth statement on.
abbrev ten_only : ClickHouse ℕ
ten_only = record {
  exec = λ q n. (leb n 9, n + 1);
  have_idx = λ table n. some 1;
  mat_total = λ table n. some 0;
  probe_dictionary = λ n. true;
}

abbrev for_ever : Tier → Bytes
for_ever t = []

abbrev fresh : Pool ℕ
fresh = record { db = 0; sent = [] }

-- One statement for each blob of a tier, of the view and of the feed; two for the tombstones; five for
-- the snapshots.
one_tier : length (split_texts b';' (tier_ddl (bytes "social") (bytes "1 YEAR"))) ≡ 1
unfolding split_texts split trim_space trim_left trim_right is_space tier_ddl tier_columns_type
    ttl_clause tags_default_expr tag_e_default_expr tag_p_default_expr tag_t_default_expr
    tag_d_default_expr
one_tier = refl

two_tombstones : length (split_texts b';' tombstones_ddl) ≡ 2
unfolding split_texts split trim_space trim_left trim_right is_space tombstones_ddl
two_tombstones = refl

five_snapshots : length (split_texts b';' snapshots_ddl) ≡ 5
unfolding split_texts split trim_space trim_left trim_right is_space snapshots_ddl
five_snapshots = refl

one_view : length (split_texts b';' events_view_ddl) ≡ 1
unfolding split_texts split trim_space trim_left trim_right is_space events_view_ddl
one_view = refl

one_feed : length (split_texts b';' feed_ddl) ≡ 1
unfolding split_texts split trim_space trim_left trim_right is_space feed_ddl
    tier_columns_type_no_indexes tag_e_default_expr tag_p_default_expr tag_t_default_expr
    tag_d_default_expr
one_feed = refl
