-- ===== src/Startup/Sources.antt =====
-- cmd/archive-relay/main.go: the flag of the sources.
use archive_relay.Prelude.{◌≡◌, List, map, All}
use archive_relay.Texts.Joined.{Piece, whole, IsPadded, join, nonempty, split_texts-join}
use archive_relay.Startup.{split_sources}

-- A list of texts, joined by commas with white space about them, is split into those that are not
-- empty, in their order, if none of them has a comma or starts or ends with white space.
pub split_sources-join :
    (ps : List Piece)
    → All (IsPadded b',') ps
    → split_sources (join b',' (map whole ps)) ≡ nonempty (map (λ p. p.text) ps)
unfolding split_sources
split_sources-join ps h = split_texts-join b',' ps h
