-- ===== src/Model/Rules.antt =====
-- `Rules` of apps/lumen/internal/model/model.go, its validation, and the per-mode adjustments of
-- apps/lumen/internal/server/mode.go. The fields are int64 in the source and may be negative before
-- they are validated. A URL or a key is a number, and 0 is the empty string.
pub mod Spec
mod Tests
use live_auction_system.Prelude.{Bool, ◌&&◌, ◌||◌, Option, none, some, if◌then◌else◌, ℕ}
use live_auction_system.Prelude.Int.{ℤ, pos, ◌-ℤ◌, ltb_ℤ, leb_ℤ}
use live_auction_system.Model.Mode.{Mode, valid_mode}

pub record Rules : Type 0 where
  pub mode : Mode
  pub start_price_cents : ℤ
  pub increment_cents : ℤ
  pub cap_price_cents : ℤ
  pub duration_sec : ℤ
  pub extend_window_sec : ℤ
  pub extend_sec : ℤ
  pub max_extensions : ℤ
  pub live_play_url : ℕ
  pub live_stream_key : ℕ

-- `MaxMoneyCents`, 2^53 - 1
abbrev pub max_money_cents : ℕ
max_money_cents = 9007199254740991

-- The errors of `Validate`, one for each message.
pub data RuleError : Type 0 where
  unknown_auction_mode start_price_negative increment_not_positive cap_price_negative : RuleError
  cap_price_too_low money_too_large first_bid_too_large duration_not_positive : RuleError
  extend_negative max_extensions_negative : RuleError

abbrev eqb_zero : ℤ → Bool
eqb_zero x = leb_ℤ x (pos 0) && leb_ℤ (pos 0) x

abbrev above_max : ℤ → Bool
above_max x = ltb_ℤ (pos max_money_cents) x

-- `Rules.Validate`: the cases of its `switch`, in order; `none` is nil.
unfoldable pub validate : Rules → Option RuleError
validate r =
    if valid_mode r.mode
    then if ltb_ℤ r.start_price_cents (pos 0)
      then some start_price_negative
      else if leb_ℤ r.increment_cents (pos 0)
      then some increment_not_positive
      else if ltb_ℤ r.cap_price_cents (pos 0)
      then some cap_price_negative
      else if ltb_ℤ (pos 0) r.cap_price_cents && leb_ℤ r.cap_price_cents r.start_price_cents
      then some cap_price_too_low
      else if above_max r.start_price_cents
          || (above_max r.increment_cents || above_max r.cap_price_cents)
      then some money_too_large
      else if eqb_zero r.cap_price_cents
          && ltb_ℤ (pos max_money_cents -ℤ r.increment_cents) r.start_price_cents
      then some first_bid_too_large
      else if leb_ℤ r.duration_sec (pos 0)
      then some duration_not_positive
      else if ltb_ℤ r.extend_window_sec (pos 0) || ltb_ℤ r.extend_sec (pos 0)
      then some extend_negative
      else if ltb_ℤ r.max_extensions (pos 0)
      then some max_extensions_negative
      else none
    else some unknown_auction_mode
