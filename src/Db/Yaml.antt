-- ===== src/Db/Yaml.antt =====
-- src/plug.c, src/config.c: the operations on ports that leave the hardware description alone.
use ops_pmd.Base.{
  ℕ, zero, suc, ◌+◌, ◌≡◌, refl, Option, none, some, List, CString, Bool-cases, inl, inr, ap, ◌∙◌,
}
use ops_pmd.Port.{PmPort, BitOp}
use ops_pmd.Platform.{Platform}
use ops_pmd.Config.{find_yaml_port, pm_get_yaml_port}
use ops_pmd.Plug.{is_qsfp, pm_configure_port, pm_configure_qsfp, pm_clear_reset, pm_reset}

-- Two states with one hardware description.
abbrev pub SameYaml : (P : Platform) → P.World → P.World → Type 0
SameYaml P w w' =
    (P.yaml_get_port_count w ≡ P.yaml_get_port_count w') × (P.yaml_get_port w ≡ P.yaml_get_port w')

-- The library's description changes in no access to a device, nor with time.
pub record KeepsYaml (P : Platform) : Type 0 where
  pub by_reg_write :
      (sub : CString) (op : BitOp) (value : ℕ) (w : P.World)
      → SameYaml P (P.i2c_reg_write sub op value w).1 w
  pub by_data_write :
      (device : Option P.Device) (sub : CString) (offset : ℕ) (bytes : List ℕ) (w : P.World)
      → SameYaml P (P.i2c_data_write device sub offset bytes w).1 w
  pub by_nanosleep : (ns : ℕ) (w : P.World) → SameYaml P (P.nanosleep ns w) w

module _ (P : Platform) where
  find_yaml_port-SameYaml :
      (w w' : P.World) (sub name : CString) (idx count : ℕ)
      → SameYaml P w w'
      → find_yaml_port P w sub name idx count ≡ find_yaml_port P w' sub name idx count
  unfolding find_yaml_port
  find_yaml_port-SameYaml w w' sub name idx zero e = refl
  find_yaml_port-SameYaml w w' sub name idx (suc count) e =
      rw (ap (λ f. f sub idx) e.1, find_yaml_port-SameYaml w w' sub name (idx + 1) count e)

  pub pm_get_yaml_port-SameYaml :
      (w w' : P.World) (sub name : CString)
      → SameYaml P w w'
      → pm_get_yaml_port P w sub name ≡ pm_get_yaml_port P w' sub name
  unfolding pm_get_yaml_port
  pm_get_yaml_port-SameYaml w w' sub name e =
      find_yaml_port-SameYaml w w' sub name 0 (P.yaml_get_port_count w sub) e
      ∙ ap (λ f. find_yaml_port P w' sub name 0 (f sub)) e.0

  pub SameYaml-refl : (w : P.World) → SameYaml P w w
  SameYaml-refl w = (refl, refl)

  pub SameYaml-trans : (u v w : P.World) → SameYaml P u v → SameYaml P v w → SameYaml P u w
  SameYaml-trans u v w a b = (a.0 ∙ b.0, a.1 ∙ b.1)

  module _ (keeps : KeepsYaml P) where
    pm_configure_qsfp-SameYaml : (p : PmPort) (w : P.World) → SameYaml P (pm_configure_qsfp P p w) w
    unfolding pm_configure_qsfp
    pm_configure_qsfp-SameYaml p w = elim (Bool-cases p.present) [
      | inr e ↦ rw (e, pm_configure_qsfp) (SameYaml-refl w)
      | inl e ↦ elim (Bool-cases p.optical) [
        | inr o ↦ rw (e, pm_configure_qsfp, o) (SameYaml-refl w)
        | inl o ↦ rw (e, pm_configure_qsfp, o) (keeps.by_data_write _ _ _ _ w)
      ]
    ]

    pub pm_configure_port-SameYaml :
        (p : PmPort) (w : P.World) → SameYaml P (pm_configure_port P p w) w
    unfolding pm_configure_port
    pm_configure_port-SameYaml p w = elim (Bool-cases (is_qsfp p)) [
      | inl e ↦ rw (e, pm_configure_port) (pm_configure_qsfp-SameYaml p w)
      | inr e ↦ rw (e, pm_configure_port) (keeps.by_reg_write _ _ _ w)
    ]

    -- A write, if there is an operation.
    after_write :
        (sub : CString) (op : Option BitOp) (value : ℕ) (w : P.World)
        → SameYaml P (elim op [ none ↦ w | some o ↦ (P.i2c_reg_write sub o value w).1 ]) w
    after_write sub none value w = SameYaml-refl w
    after_write sub (some o) value w = keeps.by_reg_write sub o value w

    pub pm_clear_reset-SameYaml : (p : PmPort) (w : P.World) → SameYaml P (pm_clear_reset P p w) w
    unfolding pm_clear_reset pm_reset
    pm_clear_reset-SameYaml p w =
        SameYaml-trans _ _ w (keeps.by_nanosleep _ _) (after_write p.subsystem _ _ w)
