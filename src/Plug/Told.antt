-- ===== src/Plug/Told.antt =====
-- src/plug.c: a port that counts as present shows the buffer behind a call of `i2c_data_read`.
use ops_pmd.Base.{
  ℕ, List, Bool-cases, replicate, succeeded, ◌≡◌, refl, true, false, inl, inr, none, some, CString,
  ap, ◌∙◌, sym, subst, pos, Option-cases, ◌⊎◌, arith,
}
use ops_pmd.Format.{print_int}
use ops_pmd.Port.{Column, Columns, PmPort, YamlPort}
use ops_pmd.Port.Laws.{as_int}
use ops_pmd.Platform.{Platform}
use ops_pmd.Detect.{Build, ModuleType, sfp_plus, qsfp_plus, qsfp28, module_type}
use ops_pmd.Detect.Report.{Verdict}
use ops_pmd.Detect.Classify.{classify}
use ops_pmd.Plug.{serial_id_offset, pm_read_a0, pm_get_presence, pm_read_module_state}
use ops_pmd.Plug.Read.{
  IsRead, page_read, pm_read_module_state-fixed, pm_read_module_state-settled,
  pm_read_module_state-IsRead,
}

-- The columns that are published show a verdict.
abbrev pub Displays : Build → Verdict → Columns → Type 0
Displays build v columns =
    (columns Column.connector ≡ some (build.connector_name v.kind))
    × (columns Column.connector_status ≡ some (build.status_name v.status))
    × (columns Column.supported_speeds ≡ some (print_int v.speed))
    × (as_int (columns Column.max_speed) ≡ some (pos v.speed))

-- Where the serial id stands in the memory of a module.
abbrev pub serial_id_at : ModuleType → ℕ
serial_id_at sfp_plus = 0
serial_id_at qsfp_plus = 128
serial_id_at qsfp28 = 128

-- The type of a port depends on its configuration alone.
module_type-same :
    (p q : PmPort) → q.module_device ≡ p.module_device → module_type q ≡ module_type p
unfolding module_type
module_type-same p q e = ground arith

module _ (P : Platform) where
  -- The buffer behind a call of `i2c_data_read` for the 128 bytes of the serial id in the device that the
  -- configuration names as the module's eeprom, whatever the call returns.
  abbrev pub buffer : ModuleType → CString → YamlPort → P.World → List ℕ
  buffer t subsystem device w =
      (P.i2c_data_read (P.yaml_find_device w subsystem device.module_eeprom) subsystem
        (serial_id_at t) (replicate 128 0) w).1

  page_read-buffer :
      (t : ModuleType) (p : PmPort) (w : P.World)
      → page_read P t p w ≡ buffer t p.subsystem p.module_device (pm_get_presence P p w).1
  unfolding pm_read_a0
  page_read-buffer t p w = at t
    where
      any_code :
          (offset : ℕ) (w1 : P.World)
          → (pm_read_a0 P p (replicate 128 0) offset w1).1
            ≡ (P.i2c_data_read
                (P.yaml_find_device w1 p.subsystem p.module_device.module_eeprom)
                p.subsystem
                offset
                (replicate 128 0)
                w1).1
      any_code offset w1 =
          let device = P.yaml_find_device w1 p.subsystem p.module_device.module_eeprom in
          elim (Bool-cases
            (succeeded (P.i2c_data_read device p.subsystem offset (replicate 128 0) w1).0)) [
              | inl e ↦ rw (e, pm_read_a0)
              | inr e ↦ rw (e, pm_read_a0)
            ]

      at :
          (t : ModuleType)
          → page_read P t p w ≡ buffer t p.subsystem p.module_device (pm_get_presence P p w).1
      at sfp_plus = any_code 0 _
      at qsfp_plus = any_code 128 _
      at qsfp28 = any_code 128 _

  -- The port shows the classification of the buffer behind such a call, which was made in one of the given
  -- states of the hardware for a port of its configuration.
  abbrev pub WasRead : (CString → YamlPort → P.World → Type 0) → PmPort → Type 0
  WasRead Q p =
      (t : ModuleType) × (w : P.World) × (module_type p ≡ some t)
      × Q p.subsystem p.module_device w
      × Displays P.build (classify t (buffer t p.subsystem p.module_device w)) p.ovs_module_columns

  pub WasRead-mono :
      (Q R : CString → YamlPort → P.World → Type 0)
      → ((subsystem : CString) (device : YamlPort) (w : P.World)
          → Q subsystem device w
          → R subsystem device w)
      → (p : PmPort) → WasRead Q p
      → WasRead R p
  WasRead-mono Q R f p (t, w, type, q, shown) =
      (t, w, type, f p.subsystem p.module_device w q, shown)

  pub WasRead-same :
      (Q : CString → YamlPort → P.World → Type 0) (p q : PmPort)
      → q.subsystem ≡ p.subsystem
      → q.module_device ≡ p.module_device
      → q.ovs_module_columns ≡ p.ovs_module_columns
      → WasRead Q p
      → WasRead Q q
  WasRead-same Q p q s d c (t, w, type, at, shown) = (
    t,
    w,
    module_type-same p q d ∙ type,
    subst (λ sub. Q sub q.module_device w) (sym s) (subst (λ dev. Q p.subsystem dev w) (sym d) at),
    subst (Displays P.build (classify t (buffer t q.subsystem q.module_device w))) (sym c) (
        subst (λ page. Displays P.build (classify t page) p.ovs_module_columns)
          (sym (
            ap (λ sub. buffer t sub q.module_device w) s
            ∙ ap (λ dev. buffer t p.subsystem dev w) d))
          shown),
  )

  no_offset : (p : PmPort) → module_type p ≡ none → serial_id_offset p ≡ none
  unfolding module_type serial_id_offset
  no_offset p e = ground arith

  -- A pass asks for the page of such a port, if its type is known.
  abbrev pub IsUnread : PmPort → Type 0
  IsUnread p = (p.present ≡ false) ⊎ (p.retry ≡ true)

  IsUnread-cases : (p : PmPort) → ((p.present ≡ true) × (p.retry ≡ false)) ⊎ IsUnread p
  IsUnread-cases p = ground arith

  -- A pass over a pluggable port leaves it as it is or reads its module.
  pub pm_read_module_state-cases :
      (p : PmPort) (w : P.World)
      → p.module_device.pluggable ≡ true
      → ((pm_read_module_state P p w).1 ≡ p)
        ⊎ ((t : ModuleType) × (module_type p ≡ some t)
            × IsRead P t (page_read P t p w) p (pm_read_module_state P p w).1)
  unfolding pm_read_module_state
  pm_read_module_state-cases p w h = elim (Option-cases (module_type p)) [
    | inl e ↦ inl (rw (no_offset p e, pm_read_module_state))
    | inr (t, e) ↦ elim (IsUnread-cases p) [
      | inl (a, b) ↦ inl (pm_read_module_state-settled P p w a b)
      | inr unread ↦ inr (t, e, (pm_read_module_state-IsRead P p t w h e unread).1)
    ]
  ]

  pub pm_read_module_state-WasRead :
      (Q : CString → YamlPort → P.World → Type 0) (p : PmPort) (w : P.World)
      → p.module_device.pluggable ≡ true
      → (IsUnread p → Q p.subsystem p.module_device (pm_get_presence P p w).1)
      → (p.present ≡ true → WasRead Q p)
      → (pm_read_module_state P p w).1.present ≡ true
      → WasRead Q (pm_read_module_state P p w).1
  pm_read_module_state-WasRead Q p w h now old present = elim (IsUnread-cases p) [
    | inl (a, b) ↦ kept (pm_read_module_state-settled P p w a b)
    | inr unread ↦ elim (pm_read_module_state-cases p w h) [
      | inl same ↦ kept same
      | inr (t, e, read) ↦ fresh t e read unread
    ]
  ]
    where
      q : PmPort
      q = (pm_read_module_state P p w).1

      kept : q ≡ p → WasRead Q q
      kept same = subst (WasRead Q) (sym same) (old (sym (ap (λ r. r.present) same) ∙ present))

      fresh :
          (t : ModuleType)
          → module_type p ≡ some t
          → IsRead P t (page_read P t p w) p q
          → IsUnread p
          → WasRead Q q
      fresh t e read unread =
          let fixed = pm_read_module_state-fixed P p w in
          let s = read.shown in
          WasRead-same Q (record p { ovs_module_columns = q.ovs_module_columns }) q
            (ap (λ r. r.subsystem) fixed) (ap (λ r. r.module_device) fixed) refl
            (
              t,
              (pm_get_presence P p w).1,
              module_type-same p (record p { ovs_module_columns = q.ovs_module_columns }) refl ∙ e,
              now unread,
              subst (λ page. Displays P.build (classify t page) q.ovs_module_columns)
                  (page_read-buffer t p w) (s.connector, s.status, s.speeds, s.max_speed),
            )
