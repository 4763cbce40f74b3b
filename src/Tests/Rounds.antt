-- ===== src/Tests/Rounds.antt =====
-- The theorems on rounds of the daemon at work, on a database that stores what is written.
use ops_pmd.Base.{
  ℕ, ◌≡◌, ◌≢◌, refl, true, false, some, List, [], ◌∷◌, ◌+◌, CString, All, ◌==◌, if◌then◌else◌,
  arith,
}
use ops_pmd.Port.{PmPort}
use ops_pmd.Db.{Idl, IntfRow, SubsystemRow, Smap}
use ops_pmd.Db.Sync.{PmInfoColumn, IsSynced, IsPublished}
use ops_pmd.Daemon.{State, pm_ovsdb_if_init, scan, pmd_run, start}
use ops_pmd.Daemon.Invariant.{IsReachable-IsValid}
use ops_pmd.Daemon.Sync.{scan-IsPublished}
use ops_pmd.Daemon.Calm.{IsHonest, IsCalm, calm_start, calm_round, IsCalm-IsSynced}
use ops_pmd.Daemon.Told.{WasReadIn, IsAccurate, IsCalm-IsAccurate}
use ops_pmd.Tests.Data.{a_platform, row_1, row_2, subsystem_row, row_for, sub_for}

-- `infos` is the column `pm_info`.
pub record Store : Type 0 where
  pub seqno : ℕ
  pub rows : List IntfRow
  pub subs : List SubsystemRow
  pub infos : ℕ → Smap

abbrev pub a_store_idl : Idl
a_store_idl = record {
  Db = Store;
  get_seqno = λ db. db.seqno;
  run = λ db. record db { seqno = db.seqno + 1 };
  is_lock_contended = λ db. false;
  has_lock = λ db. true;
  interface_get_for_uuid = λ db. row_for db.rows;
  subsystem_get_for_uuid = λ db. sub_for db.subs;
  interfaces = λ db. db.rows;
  subsystems = λ db. db.subs;
  daemons = λ db. [];
  set_pm_info = λ intf info db. record db {
    infos = λ uuid. if intf.uuid == uuid then info else db.infos uuid;
  };
  set_cur_hw = λ row n db. db;
  txn_commit_block = λ db. db;
}

row_for-uuid :
    (rows : List IntfRow) (uuid : ℕ) (intf : IntfRow)
    → row_for rows uuid ≡ some intf
    → intf.uuid ≡ uuid
row_for-uuid [] uuid intf e = cc
row_for-uuid (row ∷ rows) uuid intf e = ground (arith, row_for-uuid rows uuid intf)

pub a_column : PmInfoColumn a_store_idl
a_column = record {
  pm_info_of = λ db. db.infos;
  keeps_rows = λ intf info db uuid. refl;
  written = λ db uuid intf info e. found db uuid intf info (row_for-uuid db.rows uuid intf e);
  others_kept = λ db uuid other intf info e ne.
      not_found db uuid other intf info (row_for-uuid db.rows uuid intf e) ne;
  announced = λ row n db uuid. (refl, refl);
  committed = λ db uuid. (refl, refl);
}
  where
    found :
        (db : Store) (uuid : ℕ) (intf : IntfRow) (info : Smap)
        → intf.uuid ≡ uuid
        → (if intf.uuid == uuid then info else db.infos uuid) ≡ info
    found db uuid intf info e = ground arith

    not_found :
        (db : Store) (uuid other : ℕ) (intf : IntfRow) (info : Smap)
        → intf.uuid ≡ uuid
        → other ≢ uuid
        → (if intf.uuid == other then info else db.infos other) ≡ db.infos other
    not_found db uuid other intf info e ne = ground arith

abbrev pub a_store : Store
a_store = record {
  seqno = 1;
  rows = row_1 ∷ row_2 ∷ [];
  subs = subsystem_row ∷ [];
  infos = λ uuid. [];
}

abbrev first_round : State a_store_idl a_platform
first_round = pm_ovsdb_if_init a_store_idl a_platform a_store 0

IsHonest-run :
    (ports : List (CString × PmPort)) (db : Store)
    → IsHonest a_platform a_store_idl a_column ports db (record db { seqno = db.seqno + 1 })
unfolding a_column
IsHonest-run [] db = tt
IsHonest-run (n ∷ ports) db = ((λ row found. (row, found, refl, refl)), IsHonest-run ports db)

first_IsCalm : IsCalm a_platform a_store_idl a_column first_round
first_IsCalm = calm_start a_store 0 ((refl, (refl, tt)), tt)

scan-IsPublished_example :
    All
      (IsPublished a_store_idl a_column (scan a_store_idl a_platform first_round).db)
      (scan a_store_idl a_platform first_round).pmd.ovs_intfs
unfolding pm_ovsdb_if_init
scan-IsPublished_example =
    scan-IsPublished a_platform a_store_idl a_column first_round ((refl, (refl, tt)), tt)
      (IsReachable-IsValid a_platform a_store_idl first_round (start a_store 0))
      (IsCalm-IsSynced a_platform a_store_idl a_column first_round first_IsCalm)

IsCalm-IsSynced_example :
    All
      (IsSynced a_store_idl a_column (pmd_run a_store_idl a_platform first_round).db)
      (pmd_run a_store_idl a_platform first_round).pmd.ovs_intfs
unfolding pm_ovsdb_if_init
IsCalm-IsSynced_example =
    IsCalm-IsSynced a_platform a_store_idl a_column (pmd_run a_store_idl a_platform first_round) (
      calm_round first_IsCalm (IsHonest-run first_round.pmd.ovs_intfs a_store)
        ((refl, (refl, tt)), tt))

second_IsCalm : IsCalm a_platform a_store_idl a_column (pmd_run a_store_idl a_platform first_round)
unfolding pm_ovsdb_if_init
second_IsCalm =
    calm_round first_IsCalm (IsHonest-run first_round.pmd.ovs_intfs a_store)
      ((refl, (refl, tt)), tt)

IsCalm-IsAccurate_example :
    All
      (IsAccurate a_platform a_store_idl a_column
        (WasReadIn a_platform a_store_idl a_column
          (pmd_run a_store_idl a_platform first_round)
          second_IsCalm)
        (pmd_run a_store_idl a_platform first_round).db)
      (pmd_run a_store_idl a_platform first_round).pmd.ovs_intfs
IsCalm-IsAccurate_example =
    IsCalm-IsAccurate a_platform a_store_idl a_column (pmd_run a_store_idl a_platform first_round)
      second_IsCalm
