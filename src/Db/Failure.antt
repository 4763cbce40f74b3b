-- ===== src/Db/Failure.antt =====
-- src/ovsdb_access.c: `ovsdb_if_subsys_process` where the hardware description cannot be read.
use ops_pmd.Base.{◌≡◌, false, none, some, find, add, str_eq_refl, succeeded, ap, ◌∙◌}
use ops_pmd.Platform.{Platform}
use ops_pmd.Config.{pm_read_yaml_files}
use ops_pmd.Db.{SubsystemRow, Pmd, create_missing, subsys_process}

module _ (P : Platform) (sub : SubsystemRow) where
  abbrev registered : Pmd → Pmd
  registered st = record st { ovs_subs = add sub.name sub.uuid st.ovs_subs }

  failed :
      (st : Pmd) (w : P.World)
      → find sub.name st.ovs_subs ≡ none
      → succeeded (pm_read_yaml_files P sub.name sub.hw_desc_dir w).0 ≡ false
      → subsys_process P sub st w
        ≡ (registered st, (pm_read_yaml_files P sub.name sub.hw_desc_dir w).1)
  unfolding subsys_process
  failed st w fresh bad = rw (fresh, subsys_process, bad)

  find-registered : (st : Pmd) → find sub.name (registered st).ovs_subs ≡ some sub.uuid
  unfolding find add
  find-registered st = rw (str_eq_refl sub.name)

  known :
      (st : Pmd) (w : P.World)
      → find sub.name st.ovs_subs ≡ some sub.uuid
      → subsys_process P sub st w ≡ create_missing P sub.interfaces sub.name st w
  unfolding subsys_process
  known st w e = rw (e, subsys_process)

  -- Where the description of a new subsystem cannot be read, the pass creates no port, but the
  -- subsystem counts as known from then on: a later pass, in any state of the hardware, does not read
  -- the description again and goes on to the interfaces.
  pub subsys_process_failed :
      (st : Pmd) (w w' : P.World)
      → find sub.name st.ovs_subs ≡ none
      → succeeded (pm_read_yaml_files P sub.name sub.hw_desc_dir w).0 ≡ false
      → ((subsys_process P sub st w).0.ovs_intfs ≡ st.ovs_intfs)
        × (subsys_process P sub (subsys_process P sub st w).0 w'
            ≡ create_missing P sub.interfaces sub.name (subsys_process P sub st w).0 w')
  subsys_process_failed st w w' fresh bad =
      let step = failed st w fresh bad in
      (
        ap (λ r. r.0.ovs_intfs) step,
        known (subsys_process P sub st w).0 w'
            (ap (λ r. find sub.name r.0.ovs_subs) step ∙ find-registered st),
      )
