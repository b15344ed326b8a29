-- ===== src/Server/Admission.antt =====
-- Admission of sockets: `tryReserveWS` and `gatewayHostsRoom` of apps/lumen/internal/server/ws.go. The
-- counter changes by compare-and-swap, so that concurrent upgrades are a sequence of these steps.
pub mod Cap
mod Tests
use live_auction_system.Prelude.{
  ℕ, ◌+◌, ◌-◌, Bool, true, false, not, if◌then◌else◌, leb, ◌==◌, List, [], ◌∷◌,
}

-- `tryReserveWS`: whether the socket is admitted, and `ActiveConns` after it. A limit of 0 is none.
unfoldable pub try_reserve_ws : ℕ → ℕ → Bool × ℕ
try_reserve_ws limit active =
    if limit == 0
    then (true, active + 1)
    else if leb limit active
    then (false, active)
    else (true, active + 1)

-- An upgrade that asks for a slot, or the end of an admitted socket, which gives its slot back.
pub data Admission : Type 0 where
  upgrade teardown : Admission

-- `ActiveConns` after a sequence of upgrades and teardowns.
unfoldable pub active_after : ℕ → List Admission → ℕ → ℕ
unfolding try_reserve_ws
active_after limit [] active = active
active_after limit (upgrade ∷ steps) active =
    active_after limit steps (try_reserve_ws limit active).1
active_after limit (teardown ∷ steps) active = active_after limit steps (active - 1)

-- `gatewayHostsRoom`: whether to process the room, and whether to seed its cursor.
unfoldable pub gateway_hosts_room : ℕ → Bool → Bool × Bool
gateway_hosts_room local_viewers seeded =
    if local_viewers == 0 then (false, false) else (true, not seeded)
