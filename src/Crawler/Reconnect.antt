-- ===== src/Crawler/Reconnect.antt =====
-- internal/crawler/crawler.go: what a source asks for after it was disconnected.
use archive_relay.Prelude.{ℕ, ◌≤◌, ◌≡◌, false, Option, none, some, List, [], ◌∷◌}
use archive_relay.Crawler.{Source, Happens, eose}

abbrev IsPaced : Source → Type 0
IsPaced c = (1 ≤ c.backoff) × (c.backoff ≤ 60) × (c.slept ≤ 60)

-- Until a first EOSE every subscription is for the full history.
abbrev Full : Option (Option ℕ) → Type 0
Full none = Unit
Full (some since) = since ≡ none

abbrev IsBackfilling : Source → Type 0
IsBackfilling c = (c.backfill_complete ≡ false) × Full c.subscribed

abbrev NoEose : List Happens → Type 0
NoEose [] = Unit
NoEose (eose ∷ hs) = ⊥
NoEose (h ∷ hs) = NoEose hs
