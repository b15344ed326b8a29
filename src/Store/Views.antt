-- ===== src/Store/Views.antt =====
-- What the gateway shows of a room: `Leaderboard`, `Snapshot` and `snapshotRules` of
-- apps/lumen/internal/store/store.go. A failing read is left out but for the HMGET of `Leaderboard`.
-- Viewer and like counts are added by the caller.
use live_auction_system.Prelude.{
  ℕ, ◌*◌, ◌≡◌, ◌≢◌, Bool, true, not, if◌then◌else◌, ◌==◌, [], ◌∷◌, Option, none, some, take, All,
  Bool-cases, inl, inr, arith,
}
use live_auction_system.Prelude.Assoc.{Assoc}
use live_auction_system.Model.Status.{Status, is_live}
use live_auction_system.Model.Mode.{Mode, normalize_mode, uses_sealed_engine, uses_hybrid_engine}
use live_auction_system.Engine.Room.{Room, AuctionState}

-- The entries of another user.
unfoldable pub without : ℕ → Assoc ℕ → Assoc ℕ
without winner [] = []
without winner ((user, amount) ∷ board) =
    let rest = without winner board in if user == winner then rest else (user, amount) ∷ rest

-- `Leaderboard`: the first n entries of ZREVRANGE, which is a parameter, as the mode lets them be
-- seen. The Boolean is the read of the state.
unfoldable pub leaderboard : (Assoc ℕ → Assoc ℕ) → Bool → ℕ → Room → Assoc ℕ
unfolding is_live uses_sealed_engine uses_hybrid_engine without
leaderboard zrevrange reads n r =
    let out = take (if n == 0 then 10 else n) (zrevrange r.leaderboard) in
    if not reads
    then out
    else if not (is_live r.state.status)
    then out
    else if uses_sealed_engine r.state.mode
    then []
    else if uses_hybrid_engine r.state.mode
    then without r.state.winner_id out
    else out

-- `RoomSnapshotRules`
pub record RoomSnapshotRules : Type 0 where
  pub mode : Mode
  pub step_cents : ℕ
  pub cap_cents : Option ℕ
  pub reserve_cents : ℕ
  pub max_extensions : ℕ
  pub anti_snipe_window_ms : ℕ

-- `snapshotRules` of a frozen room, whose three price fields are set. An absent or empty one is 0.
unfoldable pub snapshot_rules : AuctionState → RoomSnapshotRules
unfolding normalize_mode
snapshot_rules s = record {
  mode = normalize_mode s.mode;
  step_cents = s.increment_cents;
  cap_cents = if s.cap_price_cents == 0 then none else some s.cap_price_cents;
  reserve_cents = s.start_price_cents;
  max_extensions = s.max_extensions;
  anti_snipe_window_ms = s.extend_window_sec * 1000;
}

-- `RoomSnapshotData`, of the fields that the state Hash has.
pub record RoomSnapshotData : Type 0 where
  pub status : Status
  pub current_price_cents : ℕ
  pub winner_id : ℕ
  pub end_at_ms : ℕ
  pub seq : ℕ
  pub rules : RoomSnapshotRules

-- `Snapshot`
unfoldable pub snapshot : AuctionState → RoomSnapshotData
unfolding snapshot_rules
snapshot s = record {
  status = s.status;
  current_price_cents = s.current_price_cents;
  winner_id = s.winner_id;
  end_at_ms = s.end_at_ms;
  seq = s.seq;
  rules = snapshot_rules s;
}

without-All : (winner : ℕ) (board : Assoc ℕ) → All (λ e. e.0 ≢ winner) (without winner board)
unfolding without
without-All winner [] = tt
without-All winner ((user, amount) ∷ board) = ground (arith, without-All winner board)

-- While a hybrid room is live and its state can be read, its leader is not on the leaderboard.
pub leaderboard_hides_leader :
    (zrevrange : Assoc ℕ → Assoc ℕ) (n : ℕ) (r : Room)
    → is_live r.state.status ≡ true
    → uses_hybrid_engine r.state.mode ≡ true
    → All (λ e. e.0 ≢ r.state.winner_id) (leaderboard zrevrange true n r)
unfolding leaderboard
leaderboard_hides_leader zrevrange n r running hybrid =
    elim (Bool-cases (uses_sealed_engine r.state.mode)) [
      | inl sealed ↦ simp (leaderboard, running, sealed) tt
      | inr unsealed ↦
          simp (leaderboard, running, unsealed, hybrid)
            (without-All r.state.winner_id
              (take (if n == 0 then 10 else n) (zrevrange r.leaderboard)))
    ]
