-- ===== src/Store/Stream/Tests.antt =====
-- A chunk of three events.
use live_auction_system.Prelude.{◌≡◌, refl, List, [], ◌∷◌, some, Option, arith, ℕ, take}
use live_auction_system.Model.Events.{type_bid_accepted}
use live_auction_system.Store.Stream.{
  StreamEvent, Fetch, collected, collect_stream_events, stream_id_seq,
}
use live_auction_system.Store.Stream.Pages.{from}
use live_auction_system.Store.Stream.Complete.{IsStream, collect_stream_events_complete}

abbrev event : ℕ → StreamEvent
event n = record { id = n; seq = n; event_type = type_bid_accepted; payload = n }

abbrev chunk : List StreamEvent
chunk = event 4 ∷ event 5 ∷ event 6 ∷ []

abbrev stream : List StreamEvent
stream = event 1 ∷ event 2 ∷ event 3 ∷ chunk

abbrev xrange : Fetch
xrange cursor count = some (take count (from (stream_id_seq cursor) stream))

stream-IsStream : IsStream stream
stream-IsStream = ground arith

-- In chunks of three after event 1.
collect_stream_events_complete_example :
    (last : Option ℕ) × (collect_stream_events xrange 3 6 (some 1)
      ≡ collected (event 2 ∷ event 3 ∷ event 4 ∷ event 5 ∷ event 6 ∷ []) last)
unfolding stream_id_seq
collect_stream_events_complete_example =
    collect_stream_events_complete xrange 3 6 (some 1) stream stream-IsStream (λ _ _. refl)
      (omega arith)
