-- ===== src/Store/Memory.antt =====
-- A store in memory, for the tests.
use archive_relay.Prelude.{
  refl, true, ◌&&◌, some, List, [], ◌∷◌, ◌++◌, Memᴰ, Memᴰ-append, Bytes, eq_bytes, eq_nat, ◌==◌,
  if◌then◌else◌,
}
use archive_relay.Nostr.{Event}
use archive_relay.Store.{Version, Backend}

pub record Memory : Type 0 where
  pub queued : List Event
  pub rows : List Event
  pub hidden : List Bytes

unfoldable pub versions : Event → List Event → List Version
versions evt [] = []
versions evt (e ∷ rows) =
    let rest = versions evt rows in
    if e.pubkey == evt.pubkey && e.kind == evt.kind
    then record { id = e.id; created_at = e.created_at } ∷ rest
    else rest

abbrev pub memory : Backend Memory
memory = record {
  enqueue = λ t evt s. (true, record s { queued = evt ∷ s.queued });
  flush = λ t s. (true, record s { rows = s.queued ++ s.rows; queued = [] });
  probe = λ evt t s. (some (versions evt s.rows), s);
  retire = λ ids reason by s. (true, record s { hidden = ids ++ s.hidden });
  admit = λ s. (true, s);
  Accepted = λ t evt s. Memᴰ evt (s.queued ++ s.rows);
  Stored = λ evt s. Memᴰ evt s.rows;
  Hidden = λ id s. Memᴰ id s.hidden;
  enqueue_accepts = λ t evt s h. Memᴰ.head refl;
  flush_stores = λ t evt s m h. m;
  retire_stored = λ ids reason by evt s m. m;
  enqueue_hidden = λ t evt id s m. m;
  flush_hidden = λ t id s m. m;
  probe_hidden = λ evt t id s m. m;
  admit_hidden = λ id s m. m;
  retire_hidden = λ ids reason by id s m. Memᴰ-append ids s.hidden m;
}
