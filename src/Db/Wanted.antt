-- ===== src/Db/Wanted.antt =====
-- src/ovsdb_access.c: what the configuration of an interface asks for, and `ovsdb_if_intf_get_hw_enable`.
use ops_pmd.Base.{
  Bool, true, ◌⊎◌, ◌≢◌, str_eq_refl, str_eq→eq, Bool-cases, ◌≡◌, refl, false, Option, none, some,
  List, CString, arith, find, Option-cases, inl, inr, ap, ◌∙◌, sym, str_eq,
}
use ops_pmd.Detect.{Build}
use ops_pmd.Db.{IntfRow, get_hw_enable}

-- The configuration enables a port: it has the key "enable" with the value for true.
abbrev pub IsEnabledBy : Build → List (CString × CString) → Bool → Type 0
IsEnabledBy build config enabled =
    ((enabled ≡ true) × (find build.config_map_enable config ≡ some build.config_map_enable_true))
    ⊎ ((enabled ≡ false)
        × (find build.config_map_enable config ≢ some build.config_map_enable_true))

not_other : {o : Option CString} {a b : CString} → str_eq b a ≡ false → o ≡ some a → o ≢ some b
not_other {o} {a} {b} ne e h = absurd (differ (str_eq_refl b) (same a b (sym e ∙ h)))
  where
    same : (a b : CString) → some a ≡ some b → a ≡ b
    same a b e = ground arith

    differ : str_eq b b ≡ true → a ≡ b → ⊥
    differ r s = clash (sym ne ∙ ap (str_eq b) s ∙ r)
      where
        clash : false ≡ true → ⊥
        clash h = cc

pub get_hw_enable-IsEnabledBy :
    (build : Build) (intf : IntfRow)
    → IsEnabledBy build intf.hw_intf_config (get_hw_enable build intf)
unfolding get_hw_enable
get_hw_enable-IsEnabledBy build intf =
    elim (Option-cases (find build.config_map_enable intf.hw_intf_config)) [
      | inl e ↦ rw (e, get_hw_enable) (inr (refl, none_other))
      | inr (v, e) ↦ elim (Bool-cases (str_eq build.config_map_enable_true v)) [
        | inl s ↦ inl (rw (e, get_hw_enable) s, e ∙ ap some (sym (str_eq→eq _ _ s)))
        | inr s ↦ inr (rw (e, get_hw_enable) s, not_other s e)
      ]
    ]
  where
    none_other : {v : CString} → none ≢ some v
    none_other h = cc
