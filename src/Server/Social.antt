-- ===== src/Server/Social.antt =====
-- The likes of apps/lumen/internal/server/social.go. The counters are an association list; a missing one
-- is 0.
use live_auction_system.Prelude.{ℕ, ◌≡◌, ◌⊎◌, arith, if◌then◌else◌, ◌==◌, none, some}
use live_auction_system.Prelude.Int.{ℤ, pos, negsuc, ◌+ℤ◌, pos_part, ltb_ℤ}
use live_auction_system.Prelude.Assoc.{Assoc, lookup, insert, lookup-insert}

-- `clampLikeDelta`
unfoldable pub clamp_like_delta : ℤ → ℤ
clamp_like_delta d = if ltb_ℤ d (pos 0) then negsuc 0 else pos 1

-- `likeCount`
unfoldable pub like_count : ℕ → Assoc ℕ → ℕ
unfolding lookup
like_count aid likes = elim (lookup aid likes) [ none ↦ 0 | some n ↦ n ]

-- `addLikes`: the new total, and the counters.
unfoldable pub add_likes : ℕ → ℤ → Assoc ℕ → ℕ × Assoc ℕ
unfolding like_count insert
add_likes aid delta likes =
    let n = pos_part (pos (like_count aid likes) +ℤ delta) in (n, insert aid n likes)

clamp_is_one : (d : ℤ) → (clamp_like_delta d ≡ negsuc 0) ⊎ (clamp_like_delta d ≡ pos 1)
unfolding clamp_like_delta
clamp_is_one d = ground arith

-- Another auction's count stays, and this one's becomes the total returned, the sum or 0.
add_likes_lem :
    (aid other : ℕ) (delta : ℤ) (likes : Assoc ℕ)
    → (like_count other (add_likes aid delta likes).1
        ≡ (if other == aid then (add_likes aid delta likes).0 else like_count other likes))
      × (pos_part (pos (like_count aid likes) +ℤ delta) ≡ (add_likes aid delta likes).0)
unfolding add_likes like_count
add_likes_lem aid other delta likes =
    ground (arith, lookup-insert other aid (pos_part (pos (like_count aid likes) +ℤ delta)) likes)
