-- ===== src/Plug/Retry.antt =====
-- src/plug.c, `pm_get_presence`: the loop at the label `retry_read` as the steps that the code takes.
use ops_pmd.Base.{
  ℕ, zero, suc, ◌≤◌, ◌≡◌, refl, Bool, true, false, not, some, ◌==◌, succeeded, arith, ◌∙◌, sym, inl,
  inr, Bool-cases,
}
use ops_pmd.Port.{PmPort, BitOp}
use ops_pmd.Platform.{Platform}
use ops_pmd.Plug.{presence_op, presence_loop, pm_get_presence}

module _ (P : Platform) (p : PmPort) (op : BitOp) where
  -- Control at the label with a `retry_count`, or a return.
  pub data Control : Type 0 where
    retry_read : ℕ → P.World → Control
    returned : Bool → P.World → Control

  -- One execution of the code between the label and the next `goto` or `return`.
  pub data PresenceStep : Control → Control → Type 0 where
    retry :
        (retry_count : ℕ) (w : P.World)
        → succeeded (P.i2c_reg_read p.subsystem op w).0 ≡ false
        → PresenceStep
            (retry_read (suc retry_count) w)
            (retry_read retry_count (P.i2c_reg_read p.subsystem op w).2)
    give_up :
        (w : P.World)
        → succeeded (P.i2c_reg_read p.subsystem op w).0 ≡ false
        → PresenceStep (retry_read zero w) (returned false (P.i2c_reg_read p.subsystem op w).2)
    answer :
        (retry_count : ℕ) (w : P.World)
        → succeeded (P.i2c_reg_read p.subsystem op w).0 ≡ true
        → PresenceStep (retry_read retry_count w) (
            returned
              (not ((P.i2c_reg_read p.subsystem op w).1 == 0))
              (P.i2c_reg_read p.subsystem op w).2)

  -- A run of so many steps.
  pub data PresenceRun : ℕ → Control → Control → Type 0 where
    here : {s : Control} → PresenceRun zero s s
    then_run :
        {n : ℕ} {s t u : Control} → PresenceStep s t → PresenceRun n t u → PresenceRun (suc n) s u

  abbrev pub IsFinal : Control → Type 0
  IsFinal s = (t : Control) → PresenceStep s t → ⊥

  returned-IsFinal : {b : Bool} {w : P.World} → IsFinal (returned b w)
  returned-IsFinal t step = elim step [ ]

  PresenceRun-returned :
      {n : ℕ} {b : Bool} {w : P.World} {s : Control}
      → PresenceRun n (returned b w) s
      → (n ≡ 0) × (s ≡ returned b w)
  PresenceRun-returned here = (refl, refl)
  PresenceRun-returned (then_run step run) = absurd (returned-IsFinal _ step)

  -- What a call that reaches the label answers, and the state that it leaves.
  abbrev outcome : ℕ → P.World → Control
  outcome r w = returned (presence_loop P r p op w).0 (presence_loop P r p op w).1

  -- A read either succeeds or fails, so control never rests at the label.
  goes_on : (r : ℕ) (w : P.World) → IsFinal (retry_read r w) → ⊥
  goes_on r w final = elim (Bool-cases (succeeded (P.i2c_reg_read p.subsystem op w).0)) [
    | inl e ↦ final _ (answer r w e)
    | inr e ↦ failing r final e
  ]
    where
      failing :
          (r : ℕ)
          → IsFinal (retry_read r w)
          → succeeded (P.i2c_reg_read p.subsystem op w).0 ≡ false
          → ⊥
      failing zero final e = final _ (give_up w e)
      failing (suc r) final e = final _ (retry r w e)

  outcome-retry :
      (r : ℕ) (w : P.World)
      → succeeded (P.i2c_reg_read p.subsystem op w).0 ≡ false
      → outcome (suc r) w ≡ outcome r (P.i2c_reg_read p.subsystem op w).2
  unfolding presence_loop
  outcome-retry r w e = rw e

  outcome-give_up :
      (w : P.World)
      → succeeded (P.i2c_reg_read p.subsystem op w).0 ≡ false
      → outcome 0 w ≡ returned false (P.i2c_reg_read p.subsystem op w).2
  unfolding presence_loop
  outcome-give_up w e = rw e

  outcome-answer :
      (r : ℕ) (w : P.World)
      → succeeded (P.i2c_reg_read p.subsystem op w).0 ≡ true
      → outcome r w
        ≡ returned
            (not ((P.i2c_reg_read p.subsystem op w).1 == 0))
            (P.i2c_reg_read p.subsystem op w).2
  unfolding presence_loop
  outcome-answer zero w e = rw e
  outcome-answer (suc r) w e = rw e

  PresenceRun-ends :
      {n r : ℕ} {w : P.World} {s : Control}
      → PresenceRun n (retry_read r w) s
      → (n ≤ suc r) × (IsFinal s → s ≡ outcome r w)
  PresenceRun-ends {r = r} {w = w} here = (omega arith, λ final. absurd (goes_on r w final))
  PresenceRun-ends (then_run (retry r w e) run) =
      let (bound, last) = PresenceRun-ends run in
      (omega arith, λ final. last final ∙ sym (outcome-retry r w e))
  PresenceRun-ends (then_run (give_up w e) run) =
      let (none_left, same) = PresenceRun-returned run in
      (omega arith, λ final. same ∙ sym (outcome-give_up w e))
  PresenceRun-ends (then_run (answer r w e) run) =
      let (none_left, same) = PresenceRun-returned run in
      (omega arith, λ final. same ∙ sym (outcome-answer r w e))

  -- The loop ends: whatever the reads answer, a run from the label, where `retry_count` is 2 at first, takes
  -- at most three steps, and where it can go no further it has returned the answer of `pm_get_presence`.
  pub pm_get_presence-ends :
      {n : ℕ} {w : P.World} {s : Control}
      → presence_op p ≡ some op
      → PresenceRun n (retry_read 2 w) s
      → (n ≤ 3) × (IsFinal s → s ≡ returned (pm_get_presence P p w).0 (pm_get_presence P p w).1)
  unfolding pm_get_presence
  pm_get_presence-ends e run = rw (e, pm_get_presence) (PresenceRun-ends run)
