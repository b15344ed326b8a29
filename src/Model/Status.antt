-- ===== src/Model/Status.antt =====
-- The auction states of apps/lumen/internal/model/model.go.
use live_auction_system.Prelude.{Bool, true, false}

-- `missing` stands for an absent `status` field of the state Hash.
pub data Status : Type 0 where
  missing draft scheduled live sold no_bid cancelled order_created : Status

pub Status-discrete : Discrete Status
Status-discrete = hlevel

-- `IsTerminal`
unfoldable pub is_terminal : Status → Bool
is_terminal sold = true
is_terminal no_bid = true
is_terminal cancelled = true
is_terminal order_created = true
is_terminal _ = false

-- `status == "LIVE"`
unfoldable pub is_live : Status → Bool
is_live live = true
is_live _ = false
