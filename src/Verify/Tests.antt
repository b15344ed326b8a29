-- ===== src/Verify/Tests.antt =====
-- Runs of the verifier on a stream of three events.
use live_auction_system.Prelude.{ℕ, ◌≡◌, ◌↔◌, refl, Bool, true, List, [], ◌∷◌, arith, inl}
use live_auction_system.Model.Events.{
  type_bid_accepted, type_auction_sold, EventType, EventType-discrete,
}
use live_auction_system.Verify.{
  Seen, find_mismatch, stream_only, VerifyReport, consistent, compute_verify_report, no_reason,
}
use live_auction_system.Verify.Agreement.{InStep, consistent_iff}

abbrev seen : ℕ → EventType → Seen
seen n t = record { seq = n; event_type = t }

abbrev stream : List Seen
stream = seen 1 type_bid_accepted ∷ seen 2 type_bid_accepted ∷ seen 3 type_auction_sold ∷ []

-- The projection has lost event 2.
abbrev gapped : List Seen
gapped = seen 1 type_bid_accepted ∷ seen 3 type_auction_sold ∷ []

find_gap : find_mismatch stream gapped 3 ≡ (2, stream_only)
unfolding find_mismatch EventType-discrete
find_gap = refl

find_none : find_mismatch stream stream 3 ≡ (0, no_reason)
unfolding find_mismatch EventType-discrete
find_none = refl

abbrev good_report : VerifyReport
good_report = record {
  stream_count = 3;
  mysql_count = 3;
  snapshot_seq = 3;
  stream_tip_seq = 3;
  mismatch_at_seq = 0;
  mismatch_reason = no_reason;
  hash_break_at_seq = 0;
}

consistent_iff_example :
    (consistent good_report ≡ true)
    ↔ ((stream ≡ stream) × InStep 3 stream × (◌≡◌ {A = Bool} true true))
unfolding compute_verify_report find_mismatch EventType-discrete
consistent_iff_example =
    consistent_iff 3 stream stream true 0 (omega arith) (omega arith) (inl refl) good_report refl
