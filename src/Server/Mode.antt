-- ===== src/Server/Mode.antt =====
-- The auction modes' policies: apps/lumen/internal/server/mode.go.
pub mod Bounded
mod Tests
use live_auction_system.Prelude.{Bool, true, false, ◌&&◌, Option, none, some, if◌then◌else◌}
use live_auction_system.Prelude.Int.{pos, ltb_ℤ, leb_ℤ}
use live_auction_system.Model.Mode.{
  Mode, english, sudden_death, sealed_first, vickrey, hybrid_reveal, all_pay, normalize_mode,
}
use live_auction_system.Model.Rules.{Rules}

-- The types that implement `AuctionMode`.
pub data AuctionMode : Type 0 where
  base_mode sudden_death_mode sealed_mode : AuctionMode

-- `boundAntiSnipe`, with `antiSnipeMaxExtensionsDefault` 10
unfoldable pub bound_anti_snipe : Rules → Rules
bound_anti_snipe r =
    if ltb_ℤ (pos 0) r.extend_window_sec
      && (ltb_ℤ (pos 0) r.extend_sec && leb_ℤ r.max_extensions (pos 0))
    then record r { max_extensions = pos 10 }
    else r

-- `NormalizeRules`; sealedMode embeds baseMode.
unfoldable pub normalize_rules : AuctionMode → Rules → Rules
unfolding bound_anti_snipe
normalize_rules base_mode r = bound_anti_snipe r
normalize_rules sudden_death_mode r = record r {
  extend_window_sec = pos 0;
  extend_sec = pos 0;
  max_extensions = pos 0;
}
normalize_rules sealed_mode r = bound_anti_snipe r

-- `SealedDuringLive`
unfoldable pub sealed_during_live : AuctionMode → Bool
sealed_during_live base_mode = false
sealed_during_live sudden_death_mode = false
sealed_during_live sealed_mode = true

-- `modeRegistry`
unfoldable pub mode_registry : Mode → Option AuctionMode
mode_registry english = some base_mode
mode_registry sudden_death = some sudden_death_mode
mode_registry sealed_first = some sealed_mode
mode_registry vickrey = some sealed_mode
mode_registry hybrid_reveal = some base_mode
mode_registry all_pay = some sealed_mode
mode_registry _ = none

-- `modeFor`
unfoldable pub mode_for : Mode → Option AuctionMode
unfolding mode_registry normalize_mode
mode_for name = mode_registry (normalize_mode name)
