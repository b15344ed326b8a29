-- ===== src/Verify.antt =====
-- apps/lumen/internal/server/verify.go: the replay verifier's comparison of the Redis Stream, the
-- MySQL projection and the snapshot. A mismatch's reason is a constructor for each message. The
-- store's reads are arguments: what each returned, or `none` for a transport error.
pub mod Agreement
pub mod Divergence
mod Tests
use live_auction_system.Prelude.{
  ℕ, Bool, true, false, ◌&&◌, not, if◌then◌else◌, ltb, ◌==◌, List, [], ◌∷◌, Option, none, some,
  length,
}
use live_auction_system.Model.Events.{EventType, EventType-discrete}
use mathlib.Core.Logic.{ite}

-- A Stream entry or a row of `auction_events`, as the comparison reads it.
pub record Seen : Type 0 where
  pub seq : ℕ
  pub event_type : EventType

pub data Reason : Type 0 where
  no_reason stream_only mysql_only type_mismatch stream_extends mysql_extends tip_mismatch : Reason

-- `stream[len(stream)-1].Seq`, 0 for an empty list.
unfoldable pub tip_seq : List Seen → ℕ
tip_seq [] = 0
tip_seq (e ∷ []) = e.seq
tip_seq (e ∷ f ∷ es) = tip_seq (f ∷ es)

-- The loop of `findMismatch` and the two tests after it. `none` is the case where both lists ran out.
unfoldable pub walk : List Seen → List Seen → Option (ℕ × Reason)
walk [] [] = none
walk (s ∷ stream) [] = some (s.seq, stream_extends)
walk [] (d ∷ db) = some (d.seq, mysql_extends)
walk (s ∷ stream) (d ∷ db) =
    let rest = walk stream db in
    if ltb s.seq d.seq
    then some (s.seq, stream_only)
    else if ltb d.seq s.seq
    then some (d.seq, mysql_only)
    else ite (EventType-discrete s.event_type d.event_type) rest (some (s.seq, type_mismatch))

-- `findMismatch`
unfoldable pub find_mismatch : List Seen → List Seen → ℕ → ℕ × Reason
unfolding walk tip_seq
find_mismatch stream db snapshot_seq = elim (walk stream db) [
  | some found ↦ found
  | none ↦
      if ltb 0 snapshot_seq && (ltb 0 (length stream) && not (snapshot_seq == tip_seq stream))
      then (tip_seq stream, tip_mismatch)
      else (0, no_reason)
]

-- `VerifyReport` without the auction id.
pub record VerifyReport : Type 0 where
  pub stream_count : ℕ
  pub mysql_count : ℕ
  pub snapshot_seq : ℕ
  pub stream_tip_seq : ℕ
  pub mismatch_at_seq : ℕ
  pub mismatch_reason : Reason
  pub hash_break_at_seq : ℕ

-- `Consistent`
unfoldable pub consistent : VerifyReport → Bool
consistent r = r.mismatch_at_seq == 0 && r.hash_break_at_seq == 0

-- The status line that `emitVerifyReport` prints, and the reason of `shortReason`.
pub data StatusLine : Type 0 where
  line_hash_break line_mismatch line_consistent : StatusLine

unfoldable pub status_line : VerifyReport → StatusLine
status_line r =
    if not (r.hash_break_at_seq == 0)
    then line_hash_break
    else if not (r.mismatch_at_seq == 0)
    then line_mismatch
    else line_consistent

-- What `VerifyEvidenceChain` returned: ok, and the seq of the break.
abbrev pub ChainResult : Type 0
ChainResult = Bool × ℕ

-- `computeVerifyReport`: the reads in the order of the code. `none` is an error of one of them. The
-- chain is read only where the comparison found nothing.
unfoldable pub compute_verify_report :
    Option ℕ → Option (List Seen) → Option (List Seen) → Option ChainResult → Option VerifyReport
compute_verify_report none _ _ _ = none
compute_verify_report (some snap) none _ _ = none
compute_verify_report (some snap) (some stream) none _ = none
compute_verify_report (some snap) (some stream) (some timeline) chain =
    let (seq, reason) = find_mismatch stream timeline snap in
    let report : VerifyReport = record {
      stream_count = length stream;
      mysql_count = length timeline;
      snapshot_seq = snap;
      stream_tip_seq = tip_seq stream;
      mismatch_at_seq = seq;
      mismatch_reason = reason;
      hash_break_at_seq = 0;
    } in
    if not (seq == 0) then some report else elim chain [
      | none ↦ none
      | some (ok, break_at) ↦
          if ok then some report else some (record report { hash_break_at_seq = break_at })
    ]
