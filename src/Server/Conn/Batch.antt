-- ===== src/Server/Conn/Batch.antt =====
-- The batch of `coalesceDrain` as a whole, apps/lumen/internal/server/ws.go, with no sender at work.
use live_auction_system.Prelude.{
  ℕ, zero, suc, ◌+◌, ◌≤◌, Bool, true, false, List, [], length, ◌≡◌, refl, sym, ap, ◌∙◌, ◌⊎◌, inl,
  inr, arith,
}
use mathlib.Core.Path.{subst}
use live_auction_system.Server.Conn.{OutboundFrame, Lane, Conn}
use live_auction_system.Server.Conn.Pump.{
  drain_crit, drain_broadcast, drain_lossy, go_on, coalesce_drain, max_drain_frames,
}
use live_auction_system.Server.Conn.Drain.{
  Moves, Moves-trans, Drained, none_spent, drain_crit-Drained, drain_broadcast-Drained, quiet,
  drain_lossy-Drained, queued,
}

module _ (socket : List (Lane × OutboundFrame) → OutboundFrame → Bool) (size : ℕ) where
  -- One loop after another.
  Drained-trans :
      (b : ℕ) (c : Conn) (r s : Bool × (ℕ × Conn))
      → Drained socket b c r
      → Drained socket r.1.0 r.1.1 s
      → Drained socket b c s
  unfolding Drained
  Drained-trans b c r s (m, (e, h)) (k, (f, g)) =
      (m + k, (omega (arith, e, f), Moves-trans m k c r.1.1 s.1.1 h g))

  -- A loop that does nothing.
  idle-Drained :
      (b : ℕ) (d : Conn) (r : Bool × (ℕ × Conn)) → r ≡ (true, (b, d)) → Drained socket b d r
  idle-Drained b d r e = subst (λ s. Drained socket b d s) (sym e) (none_spent socket b d true)

  -- With no budget left a loop does nothing.
  spent_crit : (m b : ℕ) (c : Conn) → b ≡ 0 → drain_crit socket m b c ≡ (true, (b, c))
  unfolding drain_crit
  spent_crit zero b c z = refl
  spent_crit (suc m) b c z =
      subst (λ k. drain_crit socket (suc m) k c ≡ (true, (k, c))) (sym z) refl

  spent_broadcast :
      (m b : ℕ) (c : Conn) → b ≡ 0 → drain_broadcast socket size quiet m b c ≡ (true, (b, c))
  unfolding drain_broadcast
  spent_broadcast zero b c z = refl
  spent_broadcast (suc m) b c z =
      subst (λ k. drain_broadcast socket size quiet (suc m) k c ≡ (true, (k, c))) (sym z) refl

  spent_lossy : (m b : ℕ) (c : Conn) → b ≡ 0 → drain_lossy socket m b c ≡ (true, (b, c))
  unfolding drain_lossy
  spent_lossy zero b c z = refl
  spent_lossy (suc m) b c z =
      subst (λ k. drain_lossy socket (suc m) k c ≡ (true, (k, c))) (sym z) refl

  -- The priority lanes are empty, or the budget is spent.
  Priority : Bool × (ℕ × Conn) → Type 0
  Priority r = (r.1.0 ≡ 0) ⊎ ((r.1.1.crit ≡ []) × (r.1.1.broadcast ≡ []))

  idle_stage :
      (b : ℕ) (d : Conn) (r : Bool × (ℕ × Conn))
      → b ≡ 0
      → r ≡ (true, (b, d))
      → Drained socket b d r × (r.1.0 ≡ 0)
  idle_stage b d r z e = (idle-Drained b d r e, ap (λ s. s.1.0) e ∙ z)

  broadcast_stage :
      (b : ℕ) (d : Conn)
      → ((b ≡ 0) ⊎ (d.crit ≡ []))
      → (drain_broadcast socket size quiet (length d.broadcast) b d).0 ≡ true
      → Drained socket b d (drain_broadcast socket size quiet (length d.broadcast) b d)
        × Priority (drain_broadcast socket size quiet (length d.broadcast) b d)
  unfolding Priority
  broadcast_stage b d (inl z) h =
      let g =
        idle_stage b d (drain_broadcast socket size quiet (length d.broadcast) b d) z
          (spent_broadcast (length d.broadcast) b d z) in
      (g.0, inl g.1)
  broadcast_stage b d (inr n) h =
      let g = drain_broadcast-Drained socket size (length d.broadcast) b d n refl h in
      (g.0, elim g.1.1 [ inl z ↦ inl z | inr k ↦ inr (g.1.0, k) ])

  crit_stage :
      (b : ℕ) (d : Conn)
      → ((b ≡ 0) ⊎ ((d.crit ≡ []) × (d.broadcast ≡ [])))
      → drain_crit socket (length d.crit) b d ≡ (true, (b, d))
  unfolding drain_crit
  crit_stage b d (inl z) = spent_crit (length d.crit) b d z
  crit_stage b d (inr n) = ap (λ fs. drain_crit socket (length fs) b d) n.0

  lossy_stage :
      (b : ℕ) (d : Conn)
      → ((b ≡ 0) ⊎ ((d.crit ≡ []) × (d.broadcast ≡ [])))
      → (drain_lossy socket (length d.lossy) b d).0 ≡ true
      → Drained socket b d (drain_lossy socket (length d.lossy) b d)
        × (((drain_lossy socket (length d.lossy) b d).1.0 ≡ 0)
            ⊎ (queued (drain_lossy socket (length d.lossy) b d).1.1 ≡ []))
  lossy_stage b d (inl z) h =
      let g =
        idle_stage b d (drain_lossy socket (length d.lossy) b d) z
          (spent_lossy (length d.lossy) b d z) in
      (g.0, inl g.1)
  lossy_stage b d (inr n) h = drain_lossy-Drained socket (length d.lossy) b d n.0 n.1 refl h

  -- A loop whose predecessor left the pump at work.
  went_on :
      (r : Bool × (ℕ × Conn)) (next : ℕ → Conn → Bool × (ℕ × Conn))
      → (go_on r next).0 ≡ true
      → (r.0 ≡ true) × (go_on r next ≡ next r.1.0 r.1.1)
  unfolding go_on
  went_on (true, at) next h = (refl, refl)
  went_on (false, at) next h = absurd (ground (arith, h))

  -- The first two loops.
  two_loops : Conn → Bool × (ℕ × Conn)
  two_loops c =
      go_on (drain_crit socket (length c.crit) max_drain_frames c)
        (λ b d. drain_broadcast socket size quiet (length d.broadcast) b d)

  two_loops-Drained :
      (c : Conn)
      → (two_loops c).0 ≡ true
      → Drained socket max_drain_frames c (two_loops c) × Priority (two_loops c)
  unfolding two_loops
  two_loops-Drained c h =
      let first = drain_crit socket (length c.crit) max_drain_frames c in
      let w = went_on first (λ b d. drain_broadcast socket size quiet (length d.broadcast) b d) h in
      let one = drain_crit-Drained socket (length c.crit) max_drain_frames c refl w.0 in
      let two = broadcast_stage first.1.0 first.1.1 one.1 (ap (λ r. r.0) (sym w.1) ∙ h) in
      subst (λ r. Drained socket max_drain_frames c r × Priority r) (sym w.1)
        (
          Drained-trans max_drain_frames c first
              (drain_broadcast socket size quiet (length first.1.1.broadcast) first.1.0 first.1.1)
              one.0 two.0,
          two.1,
        )

  three_loops : Conn → Bool × (ℕ × Conn)
  unfolding two_loops
  three_loops c = go_on (two_loops c) (λ b d. drain_crit socket (length d.crit) b d)

  three_loops-Drained :
      (c : Conn)
      → (three_loops c).0 ≡ true
      → Drained socket max_drain_frames c (three_loops c) × Priority (three_loops c)
  unfolding three_loops Priority
  three_loops-Drained c h =
      let two = two_loops c in
      let w = went_on two (λ b d. drain_crit socket (length d.crit) b d) h in
      let g = two_loops-Drained c w.0 in
      let e = w.1 ∙ crit_stage two.1.0 two.1.1 g.1 in
      (
        Drained-trans max_drain_frames c two (three_loops c) g.0
            (idle-Drained two.1.0 two.1.1 (three_loops c) e),
        subst (λ r. Priority r) (sym e) g.1,
      )

  four_loops-Drained :
      (c : Conn)
      → (coalesce_drain socket size quiet c).0 ≡ true
      → Drained socket max_drain_frames c (coalesce_drain socket size quiet c)
        × (((coalesce_drain socket size quiet c).1.0 ≡ 0)
            ⊎ (queued (coalesce_drain socket size quiet c).1.1 ≡ []))
  unfolding coalesce_drain three_loops two_loops Priority
  four_loops-Drained c h =
      let w = went_on (three_loops c) (λ b d. drain_lossy socket (length d.lossy) b d) h in
      let g = three_loops-Drained c w.0 in
      let last =
        lossy_stage (three_loops c).1.0 (three_loops c).1.1 g.1 (ap (λ r. r.0) (sym w.1) ∙ h) in
      subst (λ r. Drained socket max_drain_frames c r × ((r.1.0 ≡ 0) ⊎ (queued r.1.1 ≡ [])))
        (sym w.1)
        (
          Drained-trans max_drain_frames c (three_loops c)
              (drain_lossy socket (length (three_loops c).1.1.lossy) (three_loops c).1.0
                (three_loops c).1.1)
              g.0 last.0,
          last.1,
        )

  -- A batch during which no frame arrives, and after which the pump goes on: it moved frames from
  -- the head of the three lanes, the critical one first and the lossy one last, to the wire; at most
  -- `maxDrainFrames` of them, and either that many or all that waited.
  pub coalesce_drain-Moves :
      (c : Conn)
      → (coalesce_drain socket size quiet c).0 ≡ true
      → (sent : ℕ) × (Moves sent c (coalesce_drain socket size quiet c).1.1
          × ((sent ≤ max_drain_frames)
              × ((sent ≡ max_drain_frames)
                  ⊎ (queued (coalesce_drain socket size quiet c).1.1 ≡ []))))
  unfolding Drained
  coalesce_drain-Moves c h =
      let g = four_loops-Drained c h in
      let e : g.0.0 + (coalesce_drain socket size quiet c).1.0 ≡ max_drain_frames = g.0.1.0 in
      (
        g.0.0,
        (
          g.0.1.1,
          (omega (arith, e), elim g.1 [ inl z ↦ inl (omega (arith, e, z)) | inr q ↦ inr q ]),
        ),
      )
