-- ===== src/SeqGuard.antt =====
-- apps/lumen/internal/seqguard/seqguard.go: the client's ordering guard. int64 values that may be
-- negative are integers; the cursor never is.
pub mod Apply
mod Tests
use live_auction_system.Prelude.{Bool, true, false, if◌then◌else◌, List, [], ◌∷◌}
use live_auction_system.Prelude.Int.{ℤ, pos, ltb_ℤ, leb_ℤ, ◌-ℤ◌}

-- `Guard`
pub record Guard : Type 0 where
  pub last : ℤ

-- `New`
unfoldable pub new : ℤ → Guard
new last_seq = record { last = if ltb_ℤ last_seq (pos 0) then pos 0 else last_seq }

-- `Apply`: whether the frame is applied, and the guard after it.
unfoldable pub apply : Guard → ℤ → Bool × Guard
apply g s =
    if leb_ℤ s (pos 0)
    then (true, g)
    else if leb_ℤ s g.last
    then (false, g)
    else (true, record { last = s })

-- `Gap`
unfoldable pub gap : Guard → ℤ → ℤ
unfolding ◌-ℤ◌
gap g s = if leb_ℤ s g.last then pos 0 else s -ℤ g.last -ℤ pos 1

-- The read loop of a client: the frames that it applies, in order, and the guard after them.
unfoldable pub run : Guard → List ℤ → List ℤ × Guard
unfolding apply
run g [] = ([], g)
run g (s ∷ frames) =
    let (applied, g') = apply g s in
    let (rest, end) = run g' frames in if applied then (s ∷ rest, end) else (rest, end)
