-- ===== src/Server/Admission/Cap.antt =====
-- The cap on sockets.
use live_auction_system.Prelude.{ℕ, ◌≤◌, ◌<◌, List, [], ◌∷◌, arith, ◌-◌}
use live_auction_system.Server.Admission.{
  Admission, upgrade, teardown, active_after, try_reserve_ws,
}

reserve_within :
    (limit active : ℕ) → 0 < limit → active ≤ limit → (try_reserve_ws limit active).1 ≤ limit
unfolding try_reserve_ws
reserve_within limit active h k = ground arith

-- With a positive limit, no sequence of upgrades and teardowns takes the number of active sockets
-- above it, if it started within it.
pub active_after-bounded :
    (limit : ℕ) (steps : List Admission) (active : ℕ)
    → 0 < limit
    → active ≤ limit
    → active_after limit steps active ≤ limit
unfolding active_after
active_after-bounded limit [] active h k = k
active_after-bounded limit (upgrade ∷ steps) active h k =
    active_after-bounded limit steps (try_reserve_ws limit active).1 h
      (reserve_within limit active h k)
active_after-bounded limit (teardown ∷ steps) active h k =
    active_after-bounded limit steps (active - 1) h (omega arith)
