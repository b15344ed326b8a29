-- ===== src/Server/StatePatch/Conserve.antt =====
-- No accepted bid is lost or counted twice between the Stream and the room.
use live_auction_system.Prelude.{
  ℕ, ◌+◌, ◌≡◌, refl, Option, none, some, arith, List, [], ◌∷◌, ◌++◌, if◌then◌else◌, Option-cases,
  inl, inr,
}
use live_auction_system.Prelude.Assoc.{lookup, lookup-insert, lookup-delete}
use live_auction_system.Model.Events.{
  bid_accepted, auction_extended, auction_sold, auction_no_bid, auction_cancelled,
  sealed_bid_received, auction_revealed, all_pay_forfeit, BidAcceptedData, AuctionExtendedData,
}
use live_auction_system.Server.Hub.{Wire, decoded, malformed}
use live_auction_system.Server.StatePatch.{
  RoomEvent, Frame, event_frame, patch_frame, PendingRoomStatePatch, RoomStatePatchCoalescer, offer,
  flush_aid, fan_event, fan_one, fan_out, offer_wire, offer_bid_accepted, offer_auction_extended,
  merge_patch, next_patch, next_total, extend_patch,
}

-- The accepted bids that an event stands for.
abbrev pub bids_of_wire : Wire → ℕ
bids_of_wire (decoded (bid_accepted _)) = 1
bids_of_wire _ = 0

-- The accepted bids that the frames tell of: a patch tells of `bid_count_delta`.
abbrev pub bids_of_frames : List Frame → ℕ
bids_of_frames [] = 0
bids_of_frames (event_frame e ∷ fs) = bids_of_wire e.wire + bids_of_frames fs
bids_of_frames (patch_frame d ∷ fs) = d.bid_count_delta + bids_of_frames fs

abbrev pub bids_of_events : List (ℕ × RoomEvent) → ℕ
bids_of_events [] = 0
bids_of_events (ve ∷ es) = (if ve.1.marshals then bids_of_wire ve.1.wire else 0) + bids_of_events es

abbrev pub delta_of : Option PendingRoomStatePatch → ℕ
delta_of none = 0
delta_of (some patch) = patch.patch_data.bid_count_delta

-- The accepted bids that wait for the next patch.
abbrev pub bids_pending : ℕ → RoomStatePatchCoalescer → ℕ
bids_pending aid p = delta_of (lookup aid p.pending)

bids_of_frames-append :
    (fs gs : List Frame) → bids_of_frames (fs ++ gs) ≡ bids_of_frames fs + bids_of_frames gs
bids_of_frames-append [] gs = ground arith
bids_of_frames-append (event_frame e ∷ fs) gs = ground (arith, bids_of_frames-append fs gs)
bids_of_frames-append (patch_frame d ∷ fs) gs = ground (arith, bids_of_frames-append fs gs)

merge_patch-delta :
    (prev : Option PendingRoomStatePatch) (seq : ℕ) (bid : BidAcceptedData) (total first : ℕ)
    → (merge_patch prev (next_patch seq bid total) first).patch_data.bid_count_delta
      ≡ delta_of prev + 1
unfolding merge_patch next_patch
merge_patch-delta none seq bid total first = refl
merge_patch-delta (some prev) seq bid total first = refl

offer_bid :
    (viewers aid seq : ℕ) (bid : BidAcceptedData) (p : RoomStatePatchCoalescer)
    → bids_pending aid (offer_bid_accepted viewers aid seq bid p).1 ≡ (
        if (offer_bid_accepted viewers aid seq bid p).0
        then bids_pending aid p + 1
        else bids_pending aid p)
unfolding offer_bid_accepted
offer_bid viewers aid seq bid p = ground (
  arith,
  lookup-insert aid aid
      (merge_patch (lookup aid p.pending) (next_patch seq bid (next_total aid bid p.bid_totals))
        bid.server_time_ms)
      p.pending,
  merge_patch-delta (lookup aid p.pending) seq bid (next_total aid bid p.bid_totals)
      bid.server_time_ms,
)

-- Folding an extension in keeps the number of bids.
offer_extension :
    (aid seq : ℕ) (ext : AuctionExtendedData) (p : RoomStatePatchCoalescer)
    → bids_pending aid (offer_auction_extended aid seq ext p).1 ≡ bids_pending aid p
unfolding offer_auction_extended extend_patch
offer_extension aid seq ext p = elim (Option-cases (lookup aid p.pending)) [
  | inl absent ↦ ground (arith, absent)
  | inr (prev, found) ↦
      ground (arith, found, lookup-insert aid aid (extend_patch seq ext prev) p.pending)
]

offer_wire_counts :
    (viewers aid seq : ℕ) (w : Wire) (p : RoomStatePatchCoalescer)
    → bids_pending aid (offer_wire viewers aid seq w p).1 ≡ (
        if (offer_wire viewers aid seq w p).0
        then bids_pending aid p + bids_of_wire w
        else bids_pending aid p)
unfolding offer_wire
offer_wire_counts viewers aid seq (decoded (bid_accepted bid)) p = offer_bid viewers aid seq bid p
offer_wire_counts viewers aid seq (decoded (auction_extended ext)) p =
    ground (arith, offer_extension aid seq ext p)
offer_wire_counts viewers aid seq (decoded (auction_sold _)) p = refl
offer_wire_counts viewers aid seq (decoded (auction_no_bid _)) p = refl
offer_wire_counts viewers aid seq (decoded (auction_cancelled _)) p = refl
offer_wire_counts viewers aid seq (decoded (sealed_bid_received _)) p = refl
offer_wire_counts viewers aid seq (decoded (auction_revealed _)) p = refl
offer_wire_counts viewers aid seq (decoded (all_pay_forfeit _)) p = refl
offer_wire_counts viewers aid seq (malformed _) p = refl

offer_counts :
    (viewers aid : ℕ) (e : RoomEvent) (p : RoomStatePatchCoalescer)
    → bids_pending aid (offer viewers aid e p).1 ≡ (
        if (offer viewers aid e p).0
        then bids_pending aid p + bids_of_wire e.wire
        else bids_pending aid p)
unfolding offer
offer_counts viewers aid e p = ground (arith, offer_wire_counts viewers aid e.seq e.wire p)

flush_counts :
    (aid : ℕ) (p : RoomStatePatchCoalescer)
    → bids_of_frames (flush_aid aid p).0 + bids_pending aid (flush_aid aid p).1 ≡ bids_pending aid p
unfolding flush_aid
flush_counts aid p = ground (arith, lookup-delete aid aid p.pending)

event_counts :
    (viewers aid : ℕ) (e : RoomEvent) (p : RoomStatePatchCoalescer)
    → bids_of_frames (fan_event viewers aid e p).0 + bids_pending aid (fan_event viewers aid e p).1
      ≡ bids_pending aid p + bids_of_wire e.wire
unfolding fan_event
event_counts viewers aid e p = ground (
  arith,
  offer_counts viewers aid e p,
  flush_counts aid (offer viewers aid e p).1,
  bids_of_frames-append (flush_aid aid (offer viewers aid e p).1).0 (event_frame e ∷ []),
)

one_counts :
    (viewers aid : ℕ) (e : RoomEvent) (p : RoomStatePatchCoalescer)
    → bids_of_frames (fan_one viewers aid e p).0 + bids_pending aid (fan_one viewers aid e p).1
      ≡ bids_pending aid p + (if e.marshals then bids_of_wire e.wire else 0)
unfolding fan_one
one_counts viewers aid e p = ground (arith, event_counts viewers aid e p)

-- Over any run of the fan-out for a room, with any viewer counts, the accepted bids that the room was
-- told of, as single events or in patches, and those waiting in the pending patch are together those
-- that were waiting before and those of the events handled, without the events that json.Marshal refuses.
pub fan_out-conserves :
    (aid : ℕ) (es : List (ℕ × RoomEvent)) (p : RoomStatePatchCoalescer)
    → bids_of_frames (fan_out aid es p).0 + bids_pending aid (fan_out aid es p).1
      ≡ bids_pending aid p + bids_of_events es
unfolding fan_out
fan_out-conserves aid [] p = omega arith
fan_out-conserves aid ((viewers, e) ∷ es) p = ground (
  arith,
  one_counts viewers aid e p,
  fan_out-conserves aid es (fan_one viewers aid e p).1,
  bids_of_frames-append (fan_one viewers aid e p).0 (fan_out aid es (fan_one viewers aid e p).1).0,
)
