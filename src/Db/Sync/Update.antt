-- ===== src/Db/Sync/Update.antt =====
-- src/ovsdb_access.c: a whole `pm_ovsdb_update` leaves the database up to date.
use ops_pmd.Base.{
  ◌≡◌, ◌≢◌, refl, Bool, true, none, some, List, [], ◌∷◌, CString, All, find, arith, IsNew,
  Option-cases, Bool-cases, inl, inr, ap, ◌∙◌, sym, subst, str_eq_refl, if◌then◌else◌,
}
use ops_pmd.Port.{PmPort}
use ops_pmd.Db.{Idl, IntfRow, DaemonRow, Pmd}
use ops_pmd.Db.Loop.{publish, publish_all, announce, pm_ovsdb_update}
use ops_pmd.Db.Valid.{IsKept, IsValid}
use ops_pmd.Db.Publish.{publish_rows, publish_all_rows, publish_frame}
use ops_pmd.Db.Sync.{
  IsQuiet, PmInfoColumn, IsSynced, IsPublished, IsSynced-same, IsPublished-same, publish_other,
  publish_all_other, publish-gone, no_row, publish-IsPublished,
}

module _ (I : Idl) (column : PmInfoColumn I) where
  open column use {pm_info_of}

  -- No two ports of a valid map have one row.
  separate :
      (name : CString) (p : PmPort) (db : I.Db) (rest : List (CString × PmPort)) {row : IntfRow}
      → I.interface_get_for_uuid db p.uuid ≡ some row
      → row.name ≡ name
      → All (IsSynced I column db) rest
      → All IsKept rest
      → IsNew name rest
      → All (λ n. n.1.uuid ≢ p.uuid) rest
  unfolding find
  separate name p db [] e same h kept new = tt
  separate name p db ((k, q) ∷ rest) {row} e same h kept new = (
    λ shared.
        two_names k new
          (kept.0.0 ∙ sym (h.0 row (ap (I.interface_get_for_uuid db) shared ∙ e)).0 ∙ same),
    separate name p db rest e same h.1 kept.1 (ground arith),
  )
    where
      two_names : (k : CString) → find name ((k, q) ∷ rest) ≡ none → k ≡ name → ⊥
      two_names k new same = grind (arith, str_eq_refl name)

  IsSynced-publish :
      (p : PmPort) (db : I.Db) (rest : List (CString × PmPort))
      → All (λ n. n.1.uuid ≢ p.uuid) rest
      → All (IsSynced I column db) rest
      → All (IsSynced I column (publish I p db).1) rest
  IsSynced-publish p db [] ne h = tt
  IsSynced-publish p db ((k, q) ∷ rest) ne h = (
    IsSynced-same I column db (publish I p db).1 (k, q)
        (publish_rows I column.keeps_rows p db q.uuid) (publish_other I column p db q.uuid ne.0)
        h.0,
    IsSynced-publish p db rest ne.1 h.1,
  )

  apart_from :
      (p q : PmPort) (rest : List (CString × PmPort))
      → q.uuid ≡ p.uuid
      → All (λ n. n.1.uuid ≢ p.uuid) rest
      → All (λ n. q.uuid ≢ n.1.uuid) rest
  apart_from p q [] e h = tt
  apart_from p q ((k, r) ∷ rest) e h = ((λ same. h.0 (sym same ∙ e)), apart_from p q rest e h.1)

  publish_all-IsPublished :
      (ports : List (CString × PmPort)) (db : I.Db)
      → IsValid ports
      → All (IsSynced I column db) ports
      → All (IsPublished I column (publish_all I ports db).1) (publish_all I ports db).0
  unfolding publish_all
  publish_all-IsPublished [] db v h = tt
  publish_all-IsPublished ((name, p) ∷ rest) db v h =
      let (q, db1) = publish I p db in
      let dbs = publish_all I rest db1 in
      let valid : IsValid rest = record { kept = v.kept.1; unique = v.unique.1 } in
      let uuid : q.uuid ≡ p.uuid = ap (λ r. r.uuid) (publish_frame I p db) in
      elim (Option-cases (I.interface_get_for_uuid db p.uuid)) [
        | inl e ↦ (
          no_row I column dbs.1 (name, q)
              (publish_all_rows I column.keeps_rows rest db1 q.uuid
                ∙ publish_rows I column.keeps_rows p db q.uuid
                ∙ ap (I.interface_get_for_uuid db) uuid
                ∙ e),
          publish_all-IsPublished rest db1 valid (
              subst (λ d. All (IsSynced I column d) rest)
                (sym (ap (λ x. x.1) (publish-gone I column p db e))) h.1),
        )
        | inr (row, e) ↦
            let apart =
              separate name p db rest e ((h.0 row e).0 ∙ sym v.kept.0.0) h.1 v.kept.1 v.unique.0 in
            (
              IsPublished-same I column db1 dbs.1 (name, q)
                  (publish_all_rows I column.keeps_rows rest db1 q.uuid)
                  (publish_all_other I column rest db1 q.uuid (apart_from p q rest uuid apart))
                  (publish-IsPublished I column name p db h.0),
              publish_all-IsPublished rest db1 valid (IsSynced-publish p db rest apart h.1),
            )
      ]

  IsPublished-quiet :
      (f : I.Db → I.Db)
      → IsQuiet I pm_info_of f
      → (db : I.Db) (ports : List (CString × PmPort)) → All (IsPublished I column db) ports
      → All (IsPublished I column (f db)) ports
  IsPublished-quiet f quiet db [] h = tt
  IsPublished-quiet f quiet db (n ∷ ports) h =
      let (rows, infos) = quiet db n.1.uuid in
      (IsPublished-same I column db (f db) n rows infos h.0, IsPublished-quiet f quiet db ports h.1)

  announce-IsQuiet : (rows : List DaemonRow) → IsQuiet I pm_info_of (λ db. (announce I rows db).1)
  unfolding announce
  announce-IsQuiet [] db uuid = (refl, refl)
  announce-IsQuiet (row ∷ rows) db uuid =
      let (same, infos) = column.announced row 1 db uuid in
      let (same', infos') = announce-IsQuiet rows db uuid in (ground arith, ground arith)

  -- After an update no port with a row is marked, and the row of each port that has been read holds the map
  -- of the port, if the map of ports was valid and every port synced before.
  pub pm_ovsdb_update-IsPublished :
      (st : Pmd) (db : I.Db)
      → IsValid st.ovs_intfs
      → All (IsSynced I column db) st.ovs_intfs
      → All (IsPublished I column (pm_ovsdb_update I st db).1) (pm_ovsdb_update I st db).0.ovs_intfs
  unfolding pm_ovsdb_update
  pm_ovsdb_update-IsPublished st db v h =
      let (ports, db1) = publish_all I st.ovs_intfs db in
      let published = publish_all-IsPublished st.ovs_intfs db v h in
      let (done, db2) : Bool × I.Db =
        if st.cur_hw_set then (true, db1) else announce I (I.daemons db1) db1 in
      IsPublished-quiet I.txn_commit_block column.committed db2 ports
        (elim (Bool-cases st.cur_hw_set) [
          | inl e ↦ rw e published
          | inr e ↦ rw e (
              IsPublished-quiet (λ d. (announce I (I.daemons db1) d).1)
                (announce-IsQuiet (I.daemons db1)) db1 ports published)
        ])
