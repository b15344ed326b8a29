-- ===== src/SeqGuard/Tests.antt =====
-- Runs of the guard.
use live_auction_system.Prelude.{◌≡◌, refl, [], ◌∷◌, List}
use live_auction_system.Prelude.Int.{ℤ, pos, negsuc}
use live_auction_system.SeqGuard.{new, run}

-- A duplicate, a late frame, a control frame and a gap.
abbrev frames : List ℤ
frames = pos 4 ∷ pos 4 ∷ pos 3 ∷ pos 0 ∷ pos 9 ∷ []

run-frames : (run (new (negsuc 4)) frames).0 ≡ pos 4 ∷ pos 0 ∷ pos 9 ∷ []
unfolding run new
run-frames = refl
