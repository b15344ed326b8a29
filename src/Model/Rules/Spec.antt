-- ===== src/Model/Rules/Spec.antt =====
-- `validate` against a description of the rules it admits.
use live_auction_system.Prelude.{◌≡◌, ◌↔◌, ◌⊎◌, true, none, arith}
use live_auction_system.Prelude.Int.{pos, ◌≤ℤ◌, ◌<ℤ◌, ◌+ℤ◌, -ℤ_parts, +ℤ_parts}
use live_auction_system.Model.Mode.{valid_mode}
use live_auction_system.Model.Rules.{Rules, validate, max_money_cents}

-- Rules under which an auction can run and its first bid can be placed.
pub record IsValidRules (r : Rules) : Type 0 where
  pub known_mode : valid_mode r.mode ≡ true
  pub start_nonneg : pos 0 ≤ℤ r.start_price_cents
  pub step_positive : pos 0 <ℤ r.increment_cents
  pub cap_above_start : (r.cap_price_cents ≡ pos 0) ⊎ (r.start_price_cents <ℤ r.cap_price_cents)
  pub start_within : r.start_price_cents ≤ℤ pos max_money_cents
  pub step_within : r.increment_cents ≤ℤ pos max_money_cents
  pub cap_within : r.cap_price_cents ≤ℤ pos max_money_cents
  pub first_bid_within :
      r.cap_price_cents ≡ pos 0 → r.start_price_cents +ℤ r.increment_cents ≤ℤ pos max_money_cents
  pub duration_positive : pos 0 <ℤ r.duration_sec
  pub window_nonneg : pos 0 ≤ℤ r.extend_window_sec
  pub extend_nonneg : pos 0 ≤ℤ r.extend_sec
  pub extensions_nonneg : pos 0 ≤ℤ r.max_extensions

pub IsValidRules-of_validate : (r : Rules) → validate r ≡ none → IsValidRules r
unfolding validate
IsValidRules-of_validate r h = ground (
  arith,
  -ℤ_parts (pos max_money_cents) r.increment_cents,
  +ℤ_parts r.start_price_cents r.increment_cents,
)

pub validate_of_IsValidRules : (r : Rules) → IsValidRules r → validate r ≡ none
unfolding validate
validate_of_IsValidRules r h = ground (
  arith,
  -ℤ_parts (pos max_money_cents) r.increment_cents,
  +ℤ_parts r.start_price_cents r.increment_cents,
)

-- `Validate` returns nil exactly for the rules of `IsValidRules`: a known mode, a start price of
-- zero or more, a positive increment, a cap that is zero or above the start price, money of at most
-- `max_money_cents` (also the first bid where there is no cap), a positive duration, and no negative
-- extension setting.
pub validate_iff : (r : Rules) → (validate r ≡ none) ↔ IsValidRules r
validate_iff r = (IsValidRules-of_validate r, validate_of_IsValidRules r)
