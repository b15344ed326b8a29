-- ===== src/Model/Mode.antt =====
-- The auction modes of apps/lumen/internal/model/model.go.
use live_auction_system.Prelude.{Bool, true, false}

-- `default_mode` is the empty string, `unknown_mode` any string that is no constant of the file.
pub data Mode : Type 0 where
  default_mode english sudden_death sealed_first vickrey hybrid_reveal all_pay prequalify : Mode
  unknown_mode : Mode

pub Mode-discrete : Discrete Mode
Mode-discrete = hlevel

unfoldable pub normalize_mode : Mode → Mode
normalize_mode default_mode = english
normalize_mode m = m

is_listed : Mode → Bool
is_listed english = true
is_listed sudden_death = true
is_listed sealed_first = true
is_listed vickrey = true
is_listed hybrid_reveal = true
is_listed all_pay = true
is_listed prequalify = true
is_listed _ = false

unfoldable pub valid_mode : Mode → Bool
unfolding is_listed normalize_mode
valid_mode m = is_listed (normalize_mode m)

is_sealed : Mode → Bool
is_sealed sealed_first = true
is_sealed vickrey = true
is_sealed all_pay = true
is_sealed prequalify = true
is_sealed _ = false

-- `IsSealedMode`
unfoldable pub is_sealed_mode : Mode → Bool
unfolding is_sealed normalize_mode
is_sealed_mode m = is_sealed (normalize_mode m)

is_sealed_engine : Mode → Bool
is_sealed_engine sealed_first = true
is_sealed_engine vickrey = true
is_sealed_engine all_pay = true
is_sealed_engine _ = false

-- `UsesSealedEngine`
unfoldable pub uses_sealed_engine : Mode → Bool
unfolding is_sealed_engine normalize_mode
uses_sealed_engine m = is_sealed_engine (normalize_mode m)

is_hybrid : Mode → Bool
is_hybrid hybrid_reveal = true
is_hybrid _ = false

-- `UsesHybridEngine`
unfoldable pub uses_hybrid_engine : Mode → Bool
unfolding is_hybrid normalize_mode
uses_hybrid_engine m = is_hybrid (normalize_mode m)
