-- ===== src/Db/Sync.antt =====
-- src/ovsdb_access.c, `pm_ovsdb_update`: the column `pm_info` of the database against the ports.
pub mod Update
use ops_pmd.Base.{
  ℕ, ◌≡◌, ◌≢◌, refl, Bool, true, false, none, some, List, [], ◌∷◌, CString, All, find, arith, IsNew,
  Option-cases, Bool-cases, inl, inr, ap, ◌∙◌, sym, subst, str_eq_refl, if◌then◌else◌,
}
use ops_pmd.Port.{PmPort}
use ops_pmd.Db.{Idl, IntfRow, DaemonRow, Pmd, Smap}
use ops_pmd.Db.Loop.{pm_info, publish, publish_all, announce, pm_ovsdb_update}
use ops_pmd.Db.Valid.{IsKept, IsValid}
use ops_pmd.Db.Publish.{KeepsRows, publish_rows, publish_all_rows, publish_frame}

-- A call leaves the rows and their column `pm_info` alone.
abbrev pub IsQuiet : (I : Idl) → (I.Db → ℕ → Smap) → (I.Db → I.Db) → Type 0
IsQuiet I pm_info_of f =
    (db : I.Db) (uuid : ℕ)
    → (I.interface_get_for_uuid (f db) uuid ≡ I.interface_get_for_uuid db uuid)
      × (pm_info_of (f db) uuid ≡ pm_info_of db uuid)

-- The IDL with a reader of the column `pm_info`: a write changes the column of its row and no other, and
-- a transaction is not refused.
pub record PmInfoColumn (I : Idl) : Type 0 where
  pub pm_info_of : I.Db → ℕ → Smap
  pub keeps_rows : KeepsRows I
  pub written :
      (db : I.Db) (uuid : ℕ) (intf : IntfRow) (info : Smap)
      → I.interface_get_for_uuid db uuid ≡ some intf
      → pm_info_of (I.set_pm_info intf info db) uuid ≡ info
  pub others_kept :
      (db : I.Db) (uuid other : ℕ) (intf : IntfRow) (info : Smap)
      → I.interface_get_for_uuid db uuid ≡ some intf
      → other ≢ uuid
      → pm_info_of (I.set_pm_info intf info db) other ≡ pm_info_of db other
  pub announced : (row : DaemonRow) (n : ℕ) → IsQuiet I pm_info_of (I.set_cur_hw row n)
  pub committed : IsQuiet I pm_info_of I.txn_commit_block

module _ (I : Idl) (column : PmInfoColumn I) where
  open column use {pm_info_of}

  -- The row of a port, if it has one, is that of its name, and holds what the port says unless the port is
  -- marked or has not been read.
  abbrev pub IsSynced : I.Db → CString × PmPort → Type 0
  IsSynced db n =
      (row : IntfRow)
      → I.interface_get_for_uuid db n.1.uuid ≡ some row
      → (row.name ≡ n.1.instance_name)
        × (n.1.present ≡ true
            → n.1.module_info_changed ≡ false
            → pm_info_of db n.1.uuid ≡ pm_info n.1)

  -- The same, and the port is not marked.
  abbrev pub IsPublished : I.Db → CString × PmPort → Type 0
  IsPublished db n =
      (row : IntfRow)
      → I.interface_get_for_uuid db n.1.uuid ≡ some row
      → (row.name ≡ n.1.instance_name)
        × (n.1.module_info_changed ≡ false)
        × (n.1.present ≡ true → pm_info_of db n.1.uuid ≡ pm_info n.1)

  -- What `publish` makes of a port with a row.
  publish-row :
      (p : PmPort) (db : I.Db) {row : IntfRow}
      → I.interface_get_for_uuid db p.uuid ≡ some row
      → publish I p db ≡ (
          if p.module_info_changed
          then (record p { module_info_changed = false }, I.set_pm_info row (pm_info p) db)
          else (p, db))
  unfolding publish
  publish-row p db e = ground arith

  pub publish-gone :
      (p : PmPort) (db : I.Db)
      → I.interface_get_for_uuid db p.uuid ≡ none
      → publish I p db ≡ (p, db)
  unfolding publish
  publish-gone p db e = ground arith

  pub publish_other :
      (p : PmPort) (db : I.Db) (other : ℕ)
      → other ≢ p.uuid
      → pm_info_of (publish I p db).1 other ≡ pm_info_of db other
  unfolding publish
  publish_other p db other ne = elim (Option-cases (I.interface_get_for_uuid db p.uuid)) [
    | inl e ↦ rw (e, publish)
    | inr (row, e) ↦ elim (Bool-cases p.module_info_changed) [
      | inl m ↦ simp (e, publish, m) (column.others_kept db p.uuid other row (pm_info p) e ne)
      | inr m ↦ simp (e, publish, m)
    ]
  ]

  pub publish_all_other :
      (ports : List (CString × PmPort)) (db : I.Db) (other : ℕ)
      → All (λ n. other ≢ n.1.uuid) ports
      → pm_info_of (publish_all I ports db).1 other ≡ pm_info_of db other
  unfolding publish_all
  publish_all_other [] db other ne = refl
  publish_all_other ((name, p) ∷ ports) db other ne =
      publish_all_other ports (publish I p db).1 other ne.1 ∙ publish_other p db other ne.0

  pub IsPublished-same :
      (db db' : I.Db) (n : CString × PmPort)
      → I.interface_get_for_uuid db' n.1.uuid ≡ I.interface_get_for_uuid db n.1.uuid
      → pm_info_of db' n.1.uuid ≡ pm_info_of db n.1.uuid
      → IsPublished db n
      → IsPublished db' n
  IsPublished-same db db' n rows infos h row e =
      let (name, mark, info) = h row (sym rows ∙ e) in (name, mark, λ present. infos ∙ info present)

  pub IsSynced-same :
      (db db' : I.Db) (n : CString × PmPort)
      → I.interface_get_for_uuid db' n.1.uuid ≡ I.interface_get_for_uuid db n.1.uuid
      → pm_info_of db' n.1.uuid ≡ pm_info_of db n.1.uuid
      → IsSynced db n
      → IsSynced db' n
  IsSynced-same db db' n rows infos h row e =
      let (name, info) = h row (sym rows ∙ e) in
      (name, λ present unmarked. infos ∙ info present unmarked)

  pub no_row :
      (db : I.Db) (n : CString × PmPort)
      → I.interface_get_for_uuid db n.1.uuid ≡ none
      → IsPublished db n
  no_row db n e row found = absurd (none_some (sym e ∙ found))
    where
      none_some : none ≡ some row → ⊥
      none_some h = cc

  pub publish-IsPublished :
      (name : CString) (p : PmPort) (db : I.Db)
      → IsSynced db (name, p)
      → IsPublished (publish I p db).1 (name, (publish I p db).0)
  unfolding publish
  publish-IsPublished name p db h = elim (Option-cases (I.interface_get_for_uuid db p.uuid)) [
    | inl e ↦ rw (e, publish) (no_row db (name, p) e)
    | inr (row, e) ↦ elim (Bool-cases p.module_info_changed) [
      | inl m ↦
          subst (λ x. IsPublished x.1 (name, x.0)) (sym (publish-marked row e m))
            (λ other found. (
              (h other (sym (column.keeps_rows row (pm_info p) db p.uuid) ∙ found)).0,
              refl,
              λ present. column.written db p.uuid row (pm_info p) e ∙ unfold pm_info in refl,
            ))
      | inr m ↦
          subst (λ x. IsPublished x.1 (name, x.0)) (sym (publish-settled row e m))
            (λ other found.
              (let (same, info) = h other found in (same, m, λ present. info present m)))
    ]
  ]
    where
      publish-marked :
          (row : IntfRow)
          → I.interface_get_for_uuid db p.uuid ≡ some row
          → p.module_info_changed ≡ true
          → publish I p db
            ≡ (record p { module_info_changed = false }, I.set_pm_info row (pm_info p) db)
      publish-marked row e m = publish-row p db e ∙ simp (m)

      publish-settled :
          (row : IntfRow)
          → I.interface_get_for_uuid db p.uuid ≡ some row
          → p.module_info_changed ≡ false
          → publish I p db ≡ (p, db)
      publish-settled row e m = publish-row p db e ∙ rw m refl
