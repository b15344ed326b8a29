-- ===== src/Server/StatePatch/Tests.antt =====
-- Witnesses for the theorems on the coalescer.
use live_auction_system.Prelude.{true, ◌≡◌, refl, List, [], ◌∷◌, ℕ, ◌+◌, length}
use live_auction_system.Prelude.Assoc.{lookup, insert}
use live_auction_system.Model.Status.{live, sold}
use live_auction_system.Model.Events.{bid_accepted, auction_sold}
use live_auction_system.Server.Hub.{decoded}
use live_auction_system.Server.StatePatch.{
  RoomEvent, new_coalescer, RoomStatePatchCoalescer, fan_out,
}
use live_auction_system.Server.StatePatch.Conserve.{bids_of_frames, bids_pending, fan_out-conserves}

abbrev bid_event : ℕ → ℕ × RoomEvent
bid_event seq = (
  2000,
  record {
    seq = seq;
    marshals = true;
    wire = decoded (
        bid_accepted (record {
          seq = seq;
          user_id = 1;
          display_name = 1;
          amount_cents = 100 + seq;
          end_at_ms = 60000;
          status = live;
          bid_count = seq;
          server_time_ms = 1000;
        }));
  },
)

abbrev sold_event : ℕ → ℕ × RoomEvent
sold_event seq = (
  2000,
  record {
    seq = seq;
    marshals = true;
    wire = decoded (
        auction_sold (record {
          seq = seq;
          winner_id = 1;
          amount_cents = 103;
          status = sold;
          server_time_ms = 2000;
        }));
  },
)

abbrev coalescer : RoomStatePatchCoalescer
coalescer = new_coalescer (record { interval_ms = 50; min_viewers = 1000 })

abbrev events : List (ℕ × RoomEvent)
events = bid_event 1 ∷ bid_event 2 ∷ bid_event 3 ∷ sold_event 4 ∷ []

-- One patch for the three bids, and the terminal event.
two_frames : length (fan_out 7 events coalescer).0 ≡ 2
unfolding fan_out lookup insert
two_frames = refl

fan_out-conserves_example :
    bids_of_frames (fan_out 7 events coalescer).0 + bids_pending 7 (fan_out 7 events coalescer).1
    ≡ 3
unfolding fan_out lookup insert
fan_out-conserves_example = fan_out-conserves 7 events coalescer
