-- ===== src/Daemon.antt =====
-- src/pmd.c and the set-up in src/ovsdb_access.c: one round of the daemon, and its runs.
-- Between two rounds the database and the hardware may change in any way; the daemon's own state
-- changes in a round alone. Logging and `daemonize_complete` are left out.
pub mod Invariant
pub mod Round
pub mod Sync
pub mod Calm
pub mod Reads
pub mod Told
pub mod Found
pub mod Serves
use ops_pmd.Base.{Bool, false, not, [], if◌then◌else◌}
use ops_pmd.Platform.{Platform}
use ops_pmd.Plug.{pm_read_state}
use ops_pmd.Db.{Idl, Pmd}
use ops_pmd.Db.Loop.{pmd_configure, pmd_reconfigure, pm_ovsdb_update}

-- The state that `main` loops on.
pub record State (I : Idl) (P : Platform) : Type 0 where
  pub pmd : Pmd
  pub db : I.Db
  pub world : P.World

module _ (I : Idl) (P : Platform) where
  -- `pm_ovsdb_if_init`, from empty maps on: `ovs_intfs` and `ovs_subs` as `shash_init` leaves them.
  unfoldable pub pm_ovsdb_if_init : I.Db → P.World → State I P
  pm_ovsdb_if_init db w =
      let (pmd, w') =
        pmd_configure I P db
          (record { ovs_intfs = []; ovs_subs = []; idl_seqno = I.get_seqno db; cur_hw_set = false })
          w in
      record { pmd = pmd; db = db; world = w' }

  -- What `pmd_run` does with the lock.
  unfoldable pub scan : State I P → State I P
  scan s =
      let (st1, w1) = pmd_reconfigure I P s.db s.pmd s.world in
      let (ports, w2) = pm_read_state P st1.ovs_intfs w1 in
      let (st2, db2) = pm_ovsdb_update I (record st1 { ovs_intfs = ports }) s.db in
      record { pmd = st2; db = db2; world = w2 }

  unfoldable pub pmd_run : State I P → State I P
  pmd_run s =
      let s' : State I P = record s { db = I.run s.db } in
      if I.is_lock_contended s'.db then s' else if not (I.has_lock s'.db) then s' else scan s'

  -- A round of the loop of `main`, or a change from outside.
  pub data Step : State I P → State I P → Type 0 where
    run_round : {s : State I P} → Step s (pmd_run s)
    outside : {s : State I P} (db : I.Db) (w : P.World) → Step s (record s { db = db; world = w })

  -- The states that a run of the daemon reaches.
  pub data IsReachable : State I P → Type 0 where
    start : (db : I.Db) (w : P.World) → IsReachable (pm_ovsdb_if_init db w)
    after : {s t : State I P} → IsReachable s → Step s t → IsReachable t
