-- ===== src/Db/Publish.antt =====
-- src/ovsdb_access.c: what `pm_ovsdb_update` writes to the database, and when.
use ops_pmd.Base.{
  ℕ, ◌≡◌, refl, true, false, Option, none, some, List, [], ◌∷◌, CString, codes, if◌then◌else◌,
  arith, All, find, Bool-cases, Option-cases, inl, inr, ◌∙◌, subst, str_eq, str_eq→eq,
}
use ops_pmd.Port.{Column, PmPort}
use ops_pmd.Db.{Idl, IntfRow, Pmd, Smap}
use ops_pmd.Db.Loop.{pm_info, publish, publish_all, pm_ovsdb_update}
use ops_pmd.Db.Gone.{HasRow}

-- Writing the column `pm_info` removes no row and changes no other column.
abbrev pub KeepsRows : Idl → Type 0
KeepsRows I =
    (intf : IntfRow) (info : Smap) (db : I.Db) (uuid : ℕ)
    → I.interface_get_for_uuid (I.set_pm_info intf info db) uuid ≡ I.interface_get_for_uuid db uuid

-- The column that a key of the map stands for.
abbrev pub published : PmPort → CString → Option CString
published p key =
    if str_eq (codes "connector") key
    then p.ovs_module_columns Column.connector
    else if str_eq (codes "connector_status") key
    then p.ovs_module_columns Column.connector_status
    else if str_eq (codes "supported_speeds") key
    then p.ovs_module_columns Column.supported_speeds
    else if str_eq (codes "max_speed") key
    then p.ovs_module_columns Column.max_speed
    else none

pub find-pm_info_keys :
    (p : PmPort)
    → (find (codes "connector") (pm_info p) ≡ p.ovs_module_columns Column.connector)
      × (find (codes "connector_status") (pm_info p) ≡ p.ovs_module_columns Column.connector_status)
      × (find (codes "supported_speeds") (pm_info p) ≡ p.ovs_module_columns Column.supported_speeds)
      × (find (codes "max_speed") (pm_info p) ≡ p.ovs_module_columns Column.max_speed)
unfolding pm_info find str_eq
find-pm_info_keys p = (ground arith, ground arith, ground arith, ground arith)

find-pm_info_other :
    (p : PmPort) (key : CString)
    → str_eq (codes "connector") key ≡ false
    → str_eq (codes "connector_status") key ≡ false
    → str_eq (codes "supported_speeds") key ≡ false
    → str_eq (codes "max_speed") key ≡ false
    → find key (pm_info p) ≡ none
unfolding pm_info find
find-pm_info_other p key a b c d = ground arith

-- The map holds the connector, its status, the speeds and the top speed, each where the port has
-- it, and nothing else: no vendor data, no pages and no diagnostics.
find-pm_info : (p : PmPort) (key : CString) → find key (pm_info p) ≡ published p key
find-pm_info p key =
    let (c, s, v, m) = find-pm_info_keys p in
    elim (Bool-cases (str_eq (codes "connector") key)) [
      | inl e ↦ rw e (at_key (codes "connector") e c)
      | inr a ↦ elim (Bool-cases (str_eq (codes "connector_status") key)) [
        | inl e ↦ rw (a, e) (at_key (codes "connector_status") e s)
        | inr b ↦ elim (Bool-cases (str_eq (codes "supported_speeds") key)) [
          | inl e ↦ rw (a, b, e) (at_key (codes "supported_speeds") e v)
          | inr d ↦ elim (Bool-cases (str_eq (codes "max_speed") key)) [
            | inl e ↦ rw (a, b, d, e) (at_key (codes "max_speed") e m)
            | inr f ↦ rw (a, b, d, f) (find-pm_info_other p key a b d f)
          ]
        ]
      ]
    ]
  where
    at_key :
        (name : CString) {v : Option CString}
        → str_eq name key ≡ true
        → find name (pm_info p) ≡ v
        → find key (pm_info p) ≡ v
    at_key name {v} e h = subst (λ k. find k (pm_info p) ≡ v) (str_eq→eq name key e) h

module _ (I : Idl) where
  pub publish_frame :
      (p : PmPort) (db : I.Db)
      → (publish I p db).0
        ≡ record p { module_info_changed = (publish I p db).0.module_info_changed }
  unfolding publish
  publish_frame p db = ground arith

  publish-unmarked :
      (p : PmPort) (db : I.Db) {row : IntfRow}
      → I.interface_get_for_uuid db p.uuid ≡ some row
      → (publish I p db).0.module_info_changed ≡ false
  unfolding publish
  publish-unmarked p db e = ground arith

  pub publish_rows :
      KeepsRows I
      → (p : PmPort) (db : I.Db) (uuid : ℕ)
      → I.interface_get_for_uuid (publish I p db).1 uuid ≡ I.interface_get_for_uuid db uuid
  unfolding publish
  publish_rows keeps p db uuid = elim (Option-cases (I.interface_get_for_uuid db p.uuid)) [
    | inl e ↦ rw (e, publish)
    | inr (row, e) ↦ ground (arith, keeps row (pm_info p) db uuid)
  ]

  pub publish_all_rows :
      KeepsRows I
      → (ports : List (CString × PmPort)) (db : I.Db) (uuid : ℕ)
      → I.interface_get_for_uuid (publish_all I ports db).1 uuid ≡ I.interface_get_for_uuid db uuid
  unfolding publish_all
  publish_all_rows keeps [] db uuid = refl
  publish_all_rows keeps ((name, p) ∷ ports) db uuid =
      publish_all_rows keeps ports (publish I p db).1 uuid ∙ publish_rows keeps p db uuid

  HasRow-publish :
      KeepsRows I
      → (q : PmPort) (db : I.Db) (ports : List (CString × PmPort)) → All (HasRow I db) ports
      → All (HasRow I (publish I q db).1) ports
  HasRow-publish keeps q db [] h = tt
  HasRow-publish keeps q db ((name, p) ∷ ports) h =
      ((h.0.0, publish_rows keeps q db p.uuid ∙ h.0.1), HasRow-publish keeps q db ports h.1)

  -- After an update no port is marked, if all have a row.
  pub publish_all-unmarked :
      KeepsRows I
      → (ports : List (CString × PmPort)) (db : I.Db) → All (HasRow I db) ports
      → All (λ n. n.1.module_info_changed ≡ false) (publish_all I ports db).0
  unfolding publish_all
  publish_all-unmarked keeps [] db h = tt
  publish_all-unmarked keeps ((name, p) ∷ ports) db h = (
    publish-unmarked p db h.0.1,
    publish_all-unmarked keeps ports (publish I p db).1 (HasRow-publish keeps p db ports h.1),
  )

  publish_unmarked :
      (p : PmPort) (db : I.Db) → p.module_info_changed ≡ false → publish I p db ≡ (p, db)
  unfolding publish
  publish_unmarked p db e = ground arith

  -- Ports that are not marked cause no write.
  publish_all_quiet :
      (ports : List (CString × PmPort)) (db : I.Db)
      → All (λ n. n.1.module_info_changed ≡ false) ports
      → publish_all I ports db ≡ (ports, db)
  unfolding publish_all
  publish_all_quiet [] db h = refl
  publish_all_quiet ((name, p) ∷ ports) db h =
      rw (publish_unmarked p db h.0, publish_all_quiet ports db h.1)

  -- Each change is written once: where every port has a row and writing `pm_info` removes none, an
  -- update that follows another, with no change of a port between them, writes no map and leaves
  -- the ports as they are, whatever the database has become.
  pub pm_ovsdb_update_once :
      KeepsRows I
      → (st : Pmd) (db db' : I.Db) → All (HasRow I db) st.ovs_intfs
      → publish_all I (pm_ovsdb_update I st db).0.ovs_intfs db'
        ≡ ((pm_ovsdb_update I st db).0.ovs_intfs, db')
  unfolding pm_ovsdb_update
  pm_ovsdb_update_once keeps st db db' h =
      publish_all_quiet (publish_all I st.ovs_intfs db).0 db'
        (publish_all-unmarked keeps st.ovs_intfs db h)
