-- ===== src/Server/Conn/Lanes.antt =====
-- What one write adds to each lane's part of the wire, and the lists behind it, for writePump of
-- apps/lumen/internal/server/ws.go.
use live_auction_system.Prelude.{
  ◌≡◌, refl, ap, ◌∙◌, sym, List, [], ◌∷◌, ◌++◌, append-nil, append_assoc,
}
use live_auction_system.Server.Conn.{OutboundFrame, Lane, crit_lane, broadcast_lane, lossy_lane}
use live_auction_system.Server.Conn.Interleave.{written_crit, written_broadcast}

module _ {A : Type 0} where
  -- The first of the waiting elements moves to the end of what is before it.
  pub append_move : (xs : List A) (y : A) (zs : List A) → (xs ++ y ∷ []) ++ zs ≡ xs ++ y ∷ zs
  append_move xs y zs = append_assoc xs (y ∷ []) zs

  -- An element that joins the end of the last of several lists.
  pub append_last :
      (ws xs ys zs o : List A) (f : A)
      → ws ++ (xs ++ (ys ++ zs)) ≡ o
      → ws ++ (xs ++ (ys ++ (zs ++ f ∷ []))) ≡ o ++ f ∷ []
  append_last ws xs ys zs o f h =
      ap (λ l. ws ++ (xs ++ l)) (sym (append_assoc ys zs (f ∷ [])))
      ∙ ap (λ l. ws ++ l) (sym (append_assoc xs (ys ++ zs) (f ∷ [])))
      ∙ sym (append_assoc ws (xs ++ (ys ++ zs)) (f ∷ []))
      ∙ ap (λ l. l ++ f ∷ []) h

  pub append_end :
      (ws xs ys o : List A) (f : A)
      → ws ++ (xs ++ ys) ≡ o
      → ws ++ (xs ++ (ys ++ f ∷ [])) ≡ o ++ f ∷ []
  append_end ws xs ys o f h =
      append_last ws xs ys [] o f (ap (λ l. ws ++ (xs ++ l)) (append-nil ys) ∙ h)

pub broadcast_other :
    (ws : List (Lane × OutboundFrame)) (f : OutboundFrame)
    → written_broadcast (ws ++ (crit_lane, f) ∷ []) ≡ written_broadcast ws
unfolding written_broadcast
broadcast_other [] f = refl
broadcast_other ((crit_lane, g) ∷ ws) f = broadcast_other ws f
broadcast_other ((broadcast_lane, g) ∷ ws) f = ap (λ l. g ∷ l) (broadcast_other ws f)
broadcast_other ((lossy_lane, g) ∷ ws) f = broadcast_other ws f

pub broadcast_lossy :
    (ws : List (Lane × OutboundFrame)) (f : OutboundFrame)
    → written_broadcast (ws ++ (lossy_lane, f) ∷ []) ≡ written_broadcast ws
unfolding written_broadcast
broadcast_lossy [] f = refl
broadcast_lossy ((crit_lane, g) ∷ ws) f = broadcast_lossy ws f
broadcast_lossy ((broadcast_lane, g) ∷ ws) f = ap (λ l. g ∷ l) (broadcast_lossy ws f)
broadcast_lossy ((lossy_lane, g) ∷ ws) f = broadcast_lossy ws f

pub broadcast_own :
    (ws : List (Lane × OutboundFrame)) (f : OutboundFrame)
    → written_broadcast (ws ++ (broadcast_lane, f) ∷ []) ≡ written_broadcast ws ++ f ∷ []
unfolding written_broadcast
broadcast_own [] f = refl
broadcast_own ((crit_lane, g) ∷ ws) f = broadcast_own ws f
broadcast_own ((broadcast_lane, g) ∷ ws) f = ap (λ l. g ∷ l) (broadcast_own ws f)
broadcast_own ((lossy_lane, g) ∷ ws) f = broadcast_own ws f

pub crit_own :
    (ws : List (Lane × OutboundFrame)) (f : OutboundFrame)
    → written_crit (ws ++ (crit_lane, f) ∷ []) ≡ written_crit ws ++ f ∷ []
unfolding written_crit
crit_own [] f = refl
crit_own ((crit_lane, g) ∷ ws) f = ap (λ l. g ∷ l) (crit_own ws f)
crit_own ((broadcast_lane, g) ∷ ws) f = crit_own ws f
crit_own ((lossy_lane, g) ∷ ws) f = crit_own ws f
