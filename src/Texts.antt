-- ===== src/Texts.antt =====
-- Go's strings.Split at one byte and strings.TrimSpace, of whose white space only that in ASCII is
-- known here, as cmd/archive-relay/main.go and internal/store/schema.go combine them.
pub mod Joined
use archive_relay.Prelude.{
  ℕ, Bool, true, false, not, ◌&&◌, ◌||◌, List, [], ◌∷◌, ◌++◌, Bytes, is_nil, leb, nat_eq,
  if◌then◌else◌,
}

unfoldable pub is_space : ℕ → Bool
is_space c = nat_eq c b' ' || (leb b'\t' c && leb c b'\r')

-- The rest of a text before the first separator, put before its first piece.
abbrev pub onto_first : ℕ → List Bytes → List Bytes
onto_first c [] = (c ∷ []) ∷ []
onto_first c (piece ∷ pieces) = (c ∷ piece) ∷ pieces

unfoldable pub split : ℕ → Bytes → List Bytes
split sep [] = [] ∷ []
split sep (c ∷ cs) =
    let rest = split sep cs in if nat_eq c sep then [] ∷ rest else onto_first c rest

unfoldable pub trim_left : Bytes → Bytes
trim_left [] = []
trim_left (c ∷ cs) = let rest = trim_left cs in if is_space c then rest else c ∷ cs

unfoldable pub trim_right : Bytes → Bytes
trim_right [] = []
trim_right (c ∷ cs) = let rest = trim_right cs in if is_nil rest && is_space c then [] else c ∷ rest

unfoldable pub trim_space : Bytes → Bytes
trim_space s = trim_right (trim_left s)

abbrev pub keep_texts : List Bytes → List Bytes
keep_texts [] = []
keep_texts (piece ∷ pieces) =
    let rest = keep_texts pieces in
    let text = trim_space piece in if is_nil text then rest else text ∷ rest

-- The pieces between the separators, trimmed, without the empty ones.
unfoldable pub split_texts : ℕ → Bytes → List Bytes
split_texts sep s = keep_texts (split sep s)
