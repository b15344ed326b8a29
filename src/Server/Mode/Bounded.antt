-- ===== src/Server/Mode/Bounded.antt =====
-- What the modes' adjustments do to rules that `Validate` admits.
use live_auction_system.Prelude.{◌≡◌, ◌⊎◌, true, false, none, arith}
use live_auction_system.Prelude.Int.{pos, ltb_ℤ}
use live_auction_system.Model.Rules.{Rules, validate}
use live_auction_system.Server.Mode.{
  AuctionMode, base_mode, sudden_death_mode, sealed_mode, normalize_rules, bound_anti_snipe,
}

valid_after :
    (m : AuctionMode) (r : Rules) → validate r ≡ none → validate (normalize_rules m r) ≡ none
unfolding normalize_rules bound_anti_snipe validate
valid_after base_mode r v = ground arith
valid_after sudden_death_mode r v = ground arith
valid_after sealed_mode r v = ground arith

extension_bounded :
    (m : AuctionMode) (r : Rules)
    → ((normalize_rules m r).mode ≡ r.mode)
      × ((ltb_ℤ (pos 0) (normalize_rules m r).extend_window_sec ≡ false)
          ⊎ (ltb_ℤ (pos 0) (normalize_rules m r).extend_sec ≡ false)
          ⊎ (ltb_ℤ (pos 0) (normalize_rules m r).max_extensions ≡ true))
unfolding normalize_rules bound_anti_snipe
extension_bounded base_mode r = ground arith
extension_bounded sudden_death_mode r = ground arith
extension_bounded sealed_mode r = ground arith

-- Rules that `Validate` admits are still admitted after any mode's `NormalizeRules`, which keeps the
-- mode; and the auction cannot be extended without a bound: either anti-snipe is off, or the number
-- of extensions is positive.
pub normalize_rules-valid :
    (m : AuctionMode) (r : Rules)
    → validate r ≡ none
    → (validate (normalize_rules m r) ≡ none)
      × ((normalize_rules m r).mode ≡ r.mode)
      × ((ltb_ℤ (pos 0) (normalize_rules m r).extend_window_sec ≡ false)
          ⊎ (ltb_ℤ (pos 0) (normalize_rules m r).extend_sec ≡ false)
          ⊎ (ltb_ℤ (pos 0) (normalize_rules m r).max_extensions ≡ true))
normalize_rules-valid m r v =
    let (kept, bounded) = extension_bounded m r in (valid_after m r v, kept, bounded)
