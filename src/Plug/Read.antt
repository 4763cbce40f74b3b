-- ===== src/Plug/Read.antt =====
-- src/plug.c: what a pass over a port leaves behind.
use ops_pmd.Base.{
  ℕ, zero, suc, ◌≡◌, ◌⊎◌, inl, inr, true, false, not, ◌||◌, some, List, if◌then◌else◌, pos,
  succeeded, arith, replicate, Option-cases, Bool-cases, ap, ◌∙◌,
}
use ops_pmd.Port.{PmPort, Column}
use ops_pmd.Port.Laws.{rest, as_int}
use ops_pmd.SerialId.{page_size}
use ops_pmd.Detect.{Build, ModuleType, sfp_plus, qsfp_plus, qsfp28, module_type, pm_parse}
use ops_pmd.Detect.Report.{Verdict, Shows}
use ops_pmd.Detect.Classify.{classify}
use ops_pmd.Detect.Parse.{pm_parse-Shows, pm_parse_ignored, pm_parse_unknown}
use ops_pmd.Dom.{set_a2_read_request}
use ops_pmd.Platform.{Platform}
use ops_pmd.Plug.{
  serial_id_offset, pm_get_presence, pm_read_a0, accept_page, read_diagnostics, read_pass,
  read_loop, pm_read_module_state, sfp_serial_id_offset, qsfp_serial_id_offset,
}

-- Everything of a port but what reading its module can change.
abbrev pub fixed : PmPort → PmPort
fixed p = record (rest p) {
  present = false;
  retry = false;
  a2_read_requested = false;
  optical = false;
}

-- The fields that `fixed` clears, cleared.
abbrev unread : PmPort → PmPort
unread p = record p { present = false; retry = false; a2_read_requested = false; optical = false }

set_a2_read_request_frame :
    (page : List ℕ) (p : PmPort)
    → ((set_a2_read_request page p).ovs_module_columns ≡ p.ovs_module_columns)
      × ((set_a2_read_request page p).optical ≡ p.optical)
      × ((set_a2_read_request page p).module_info_changed ≡ p.module_info_changed)
      × ((set_a2_read_request page p).present ≡ p.present)
      × ((set_a2_read_request page p).retry ≡ p.retry)
      × (fixed (set_a2_read_request page p) ≡ fixed p)
unfolding set_a2_read_request
set_a2_read_request_frame page p =
    (ground arith, ground arith, ground arith, ground arith, ground arith, ground arith)

Shows-same :
    (build : Build) {v : Verdict} (p q : PmPort)
    → q.ovs_module_columns ≡ p.ovs_module_columns
    → q.optical ≡ p.optical
    → q.module_info_changed ≡ p.module_info_changed
    → Shows build v p
    → Shows build v q
Shows-same build p q c o m s = record {
  connector = ap (λ f. f Column.connector) c ∙ s.connector;
  status = ap (λ f. f Column.connector_status) c ∙ s.status;
  max_speed = ap (λ f. as_int (f Column.max_speed)) c ∙ s.max_speed;
  speeds = ap (λ f. f Column.supported_speeds) c ∙ s.speeds;
  technology = ap (λ f. f Column.cable_technology) c ∙ s.technology;
  cable_length = ap (λ f. f Column.cable_length) c ∙ s.cable_length;
  optical = o ∙ s.optical;
  changed = m ∙ s.changed;
}

-- Where the serial id stands in the memory of a module.
abbrev pub offset_of : ModuleType → ℕ
offset_of sfp_plus = sfp_serial_id_offset
offset_of qsfp_plus = qsfp_serial_id_offset
offset_of qsfp28 = qsfp_serial_id_offset

pub serial_id_offset-type :
    (p : PmPort) (t : ModuleType) → module_type p ≡ some t → serial_id_offset p ≡ some (offset_of t)
unfolding serial_id_offset module_type
serial_id_offset-type p sfp_plus e = ground arith
serial_id_offset-type p qsfp_plus e = ground arith
serial_id_offset-type p qsfp28 e = ground arith

-- What a port holds once its module has been read as a page.
pub record IsRead (P : Platform) (t : ModuleType) (page : List ℕ) (p q : PmPort) : Type 0 where
  pub present : q.present ≡ true
  pub settled : q.retry ≡ false
  pub shown : Shows P.build (classify t page) q
  pub same : fixed q ≡ fixed p

pub not_settled :
    (p : PmPort) → (p.present ≡ false) ⊎ (p.retry ≡ true) → (not p.present || p.retry) ≡ true
not_settled p h = ground arith

module _ (P : Platform) where
  read_diagnostics_lem :
      (r : ℕ) (p : PmPort) (w : P.World) → read_diagnostics P r p w ≡ (pos 0, p, w)
  unfolding read_diagnostics
  read_diagnostics_lem r p w = ground arith

  -- The pass with its fixed tests taken: presence plays no part, nor does the outcome of the read.
  read_loop_lem :
      (r offset : ℕ) (buf : List ℕ) (p : PmPort) (w : P.World)
      → read_loop P r offset buf p w ≡ (
          let w1 = (pm_get_presence P p w).1 in
          let (rc, page, w2) = pm_read_a0 P p buf offset w1 in
          if not p.present || p.retry then (pos 0, accept_page P page p, w2) else (pos 0, p, w1))
  unfolding read_loop read_pass
  read_loop_lem zero offset buf p w = rw (read_diagnostics_lem, read_diagnostics_lem) (ground arith)
  read_loop_lem (suc r) offset buf p w =
      rw (read_diagnostics_lem, read_diagnostics_lem) (ground arith)

  pub accept_page-IsRead :
      (page : List ℕ) (p : PmPort) (t : ModuleType)
      → p.module_device.pluggable ≡ true
      → module_type p ≡ some t
      → IsRead P t page p (accept_page P page p)
  unfolding accept_page
  accept_page-IsRead page p t h e =
      let (rc, pg, shown, same) = pm_parse-Shows P.build page p t h e in
      let q = (pm_parse P.build page p).2 in
      let (c, o, m, pr, re, fx) =
        set_a2_read_request_frame (pm_parse P.build page p).1
          (record q { present = true; retry = false }) in
      rw rc record {
        present = pr;
        settled = re;
        shown = Shows-same P.build q _ c o m shown;
        same = fx ∙ ap fixed same;
      }

  -- The page that a pass over the port reads in the state `w`: whatever the buffer holds after the
  -- presence test and the read, the outcome of both ignored.
  abbrev pub page_read : ModuleType → PmPort → P.World → List ℕ
  page_read t p w =
      (pm_read_a0 P p (replicate page_size 0) (offset_of t) (pm_get_presence P p w).1).1

  pm_read_module_state_lem :
      (p : PmPort) (t : ModuleType) (w : P.World)
      → module_type p ≡ some t
      → ((pm_read_module_state P p w).0 ≡ pos 0)
        × ((pm_read_module_state P p w).1
            ≡ (if not p.present || p.retry then accept_page P (page_read t p w) p else p))
  unfolding pm_read_module_state
  pm_read_module_state_lem p t w e =
      rw (serial_id_offset-type p t e, pm_read_module_state, read_loop_lem)
        (ground arith, ground arith)

  -- A pass over a pluggable port of a known type that has not been read succeeds and marks it
  -- present and settled, with the verdict on the page in its columns and its configuration as
  -- before, whether or not a module is present and whether or not its page could be read.
  pub pm_read_module_state-IsRead :
      (p : PmPort) (t : ModuleType) (w : P.World)
      → p.module_device.pluggable ≡ true
      → module_type p ≡ some t
      → (p.present ≡ false) ⊎ (p.retry ≡ true)
      → ((pm_read_module_state P p w).0 ≡ pos 0)
        × IsRead P t (page_read t p w) p (pm_read_module_state P p w).1
  pm_read_module_state-IsRead p t w h e unread =
      let (rc, q) = pm_read_module_state_lem p t w e in
      (rc, rw (q, not_settled p unread) (accept_page-IsRead (page_read t p w) p t h e))

  -- A port that has been read is left as it is by every later pass.
  pub pm_read_module_state-settled :
      (p : PmPort) (w : P.World)
      → p.present ≡ true
      → p.retry ≡ false
      → (pm_read_module_state P p w).1 ≡ p
  unfolding pm_read_module_state
  pm_read_module_state-settled p w h k = elim (Option-cases (serial_id_offset p)) [
    | inl e ↦ rw (e, pm_read_module_state)
    | inr (offset, e) ↦ rw (e, pm_read_module_state, read_loop_lem) (ground arith)
  ]

  pm_parse-fixed : (page : List ℕ) (p : PmPort) → fixed (pm_parse P.build page p).2 ≡ fixed p
  pm_parse-fixed page p = elim (Bool-cases p.module_device.pluggable) [
    | inr h ↦ ap fixed (pm_parse_ignored P.build page p (inl h)).1
    | inl h ↦ elim (Option-cases p.module_device.connector) [
      | inl c ↦ ap fixed (pm_parse_ignored P.build page p (inr c)).1
      | inr (name, c) ↦ elim (Option-cases (module_type p)) [
        | inl e ↦
            let (_, _, _, _, same) = pm_parse_unknown P.build page p Column.connector h c e in
            ap unread same
        | inr (t, e) ↦ let (_, _, _, same) = pm_parse-Shows P.build page p t h e in ap unread same
      ]
    ]
  ]

  accept_page-fixed : (page : List ℕ) (p : PmPort) → fixed (accept_page P page p) ≡ fixed p
  unfolding accept_page
  accept_page-fixed page p =
      let (rc, page', q) = pm_parse P.build page p in
      elim (Bool-cases (succeeded rc)) [
        | inl e ↦
            let (_, _, _, _, _, same) =
              set_a2_read_request_frame page' (record q { present = true; retry = false }) in
            rw (e, accept_page) (same ∙ pm_parse-fixed page p)
        | inr e ↦ rw (e, accept_page) (pm_parse-fixed page p)
      ]

  -- Whatever becomes of a pass, it changes of a port nothing but what reading its module can change.
  pub pm_read_module_state-fixed :
      (p : PmPort) (w : P.World) → fixed (pm_read_module_state P p w).1 ≡ fixed p
  unfolding pm_read_module_state
  pm_read_module_state-fixed p w = elim (Option-cases (serial_id_offset p)) [
    | inl e ↦ rw (e, pm_read_module_state)
    | inr (offset, e) ↦ elim (Bool-cases (not p.present || p.retry)) [
      | inl b ↦ rw (e, pm_read_module_state, read_loop_lem, b) (accept_page-fixed _ p)
      | inr b ↦ rw (e, pm_read_module_state, read_loop_lem, b)
    ]
  ]
