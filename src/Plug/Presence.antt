-- ===== src/Plug/Presence.antt =====
-- src/plug.c: the reads of `pm_get_presence`.
use ops_pmd.Base.{ℕ, zero, suc, ◌≤◌, ◌≡◌, true, false, not, ◌==◌, succeeded, arith, some}
use ops_pmd.Port.{PmPort, BitOp}
use ops_pmd.Platform.{Platform}
use ops_pmd.Plug.{presence_loop, presence_op, pm_get_presence}

module _ (P : Platform) (p : PmPort) (op : BitOp) where
  -- The state behind `n` reads of the register.
  abbrev pub after_reads : ℕ → P.World → P.World
  after_reads zero w = w
  after_reads (suc n) w = after_reads n (P.i2c_reg_read p.subsystem op w).2

  -- Read `n`, counted from 0, succeeds and no earlier one does.
  abbrev pub FirstSuccess : ℕ → P.World → Type 0
  FirstSuccess zero w = succeeded (P.i2c_reg_read p.subsystem op w).0 ≡ true
  FirstSuccess (suc n) w =
      (succeeded (P.i2c_reg_read p.subsystem op w).0 ≡ false)
      × FirstSuccess n (P.i2c_reg_read p.subsystem op w).2

  -- The first `n` reads fail.
  abbrev pub AllFail : ℕ → P.World → Type 0
  AllFail zero w = Unit {0}
  AllFail (suc n) w =
      (succeeded (P.i2c_reg_read p.subsystem op w).0 ≡ false)
      × AllFail n (P.i2c_reg_read p.subsystem op w).2

  presence_loop-success :
      (r n : ℕ) (w : P.World)
      → n ≤ r
      → FirstSuccess n w
      → presence_loop P r p op w ≡ (
        not ((P.i2c_reg_read p.subsystem op (after_reads n w)).1 == 0),
        (P.i2c_reg_read p.subsystem op (after_reads n w)).2,
      )
  unfolding presence_loop
  presence_loop-success zero zero w h s = rw s
  presence_loop-success (suc r) zero w h s = rw s
  presence_loop-success zero (suc n) w h s = absurd (omega arith)
  presence_loop-success (suc r) (suc n) w h s =
      rw s.0 (presence_loop-success r n _ (omega arith) s.1)

  presence_loop-failure :
      (r : ℕ) (w : P.World)
      → AllFail (suc r) w
      → presence_loop P r p op w ≡ (false, after_reads (suc r) w)
  unfolding presence_loop
  presence_loop-failure zero w s = rw s.0
  presence_loop-failure (suc r) w s = rw s.0 (presence_loop-failure r _ s.1)

  -- The answer is that of the first read that succeeds, if it is among the first three, and no read
  -- follows it.
  pm_get_presence-success :
      (n : ℕ) (w : P.World)
      → presence_op p ≡ some op
      → n ≤ 2
      → FirstSuccess n w
      → pm_get_presence P p w ≡ (
        not ((P.i2c_reg_read p.subsystem op (after_reads n w)).1 == 0),
        (P.i2c_reg_read p.subsystem op (after_reads n w)).2,
      )
  unfolding pm_get_presence
  pm_get_presence-success n w e h s = rw (e, pm_get_presence) (presence_loop-success 2 n w h s)

  -- For a port of a known type, after three failing reads the module counts as absent, and no fourth
  -- read is made.
  pm_get_presence-failure :
      (w : P.World)
      → presence_op p ≡ some op
      → AllFail 3 w
      → pm_get_presence P p w ≡ (false, after_reads 3 w)
  unfolding pm_get_presence
  pm_get_presence-failure w e s = rw (e, pm_get_presence) (presence_loop-failure 2 w s)

  -- For a port of a known type the answer is that of the first read that succeeds, if it is among the
  -- first three, and no read follows it; after three failing reads the module counts as absent, and no
  -- fourth read is made.
  pub pm_get_presence-first :
      (w : P.World)
      → presence_op p ≡ some op
      → ((n : ℕ)
          → n ≤ 2
          → FirstSuccess n w
          → pm_get_presence P p w ≡ (
            not ((P.i2c_reg_read p.subsystem op (after_reads n w)).1 == 0),
            (P.i2c_reg_read p.subsystem op (after_reads n w)).2,
          ))
        × (AllFail 3 w → pm_get_presence P p w ≡ (false, after_reads 3 w))
  pm_get_presence-first w e =
      (λ n h s. pm_get_presence-success n w e h s, λ s. pm_get_presence-failure w e s)
