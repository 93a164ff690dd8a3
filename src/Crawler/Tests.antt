-- ===== src/Crawler/Tests.antt =====
-- internal/crawler/crawler.go with a source that is down.
use archive_relay.Prelude.{◌-◌, ◌≡◌, refl, true, none, some, List, [], ◌∷◌}
use archive_relay.Crawler.{
  reconnect_overlap, since_for_reconnect, Source, Happens, connect_fails, subscribes, closes,
  connect, listen, turn, run_source,
}

abbrev struggling : List Happens
struggling = connect_fails ∷ connect_fails ∷ subscribes ∷ closes 9000 ∷ subscribes ∷ []

abbrev dropped_once : Source
dropped_once = record {
  backoff = 1;
  backfill_complete = true;
  last_disconnect = some 10000;
  slept = 2;
  subscribed = none;
}

-- The source was away for an hour and closed a minute later, before its EOSE.
hour_not_asked_again :
    ((run_source (subscribes ∷ []) dropped_once).subscribed
      ≡ some (some (10000 - reconnect_overlap)))
    × ((run_source (subscribes ∷ closes 13660 ∷ subscribes ∷ []) dropped_once).subscribed
        ≡ some (some (13660 - reconnect_overlap)))
unfolding run_source turn connect listen since_for_reconnect
hour_not_asked_again = (refl, refl)
