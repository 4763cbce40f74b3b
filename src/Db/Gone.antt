-- ===== src/Db/Gone.antt =====
-- src/ovsdb_access.c, `pmd_reconfigure`: the loop over the ports whose row may be gone.
use ops_pmd.Base.{
  ◌≡◌, refl, false, none, some, List, [], ◌∷◌, ◌++◌, CString, arith, All, find, delete_first, IsNew,
  HasUniqueKeys, delete_first-append, IsNew-append, append_assoc, Option-cases, inl, inr, ap, ◌∙◌,
  sym, str_eq, str_eq_sym,
}
use ops_pmd.Port.{PmPort}
use ops_pmd.Db.{Idl, IntfRow}
use ops_pmd.Db.Loop.{delete_ports}
use ops_pmd.Db.Valid.{IsKept, IsValid}

-- No entry of `m` has the name of one in `pre`.
abbrev NewNames : List (CString × PmPort) → List (CString × PmPort) → Type 0
NewNames pre m = All (λ n. IsNew n.0 pre) m

different :
    (k : CString) (n : CString × PmPort) (m : List (CString × PmPort))
    → IsNew k (n ∷ m)
    → str_eq k n.0 ≡ false
unfolding find
different k (j, p) m h = ground (arith, str_eq_sym k j)

others :
    (k : CString) (n : CString × PmPort) (m : List (CString × PmPort)) → IsNew k (n ∷ m) → IsNew k m
unfolding find
others k (j, p) m h = ground arith

NewNames-append :
    (k : CString) (p : PmPort) (pre m : List (CString × PmPort))
    → NewNames pre m
    → IsNew k m
    → NewNames (pre ++ ((k, p) ∷ [])) m
NewNames-append k p pre [] h fresh = tt
NewNames-append k p pre (n ∷ m) h fresh = (
  IsNew-append n.0 k p pre h.0 (different k n m fresh),
  NewNames-append k p pre m h.1 (others k n m fresh),
)

module _ (I : Idl) (db : I.Db) where
  -- The entries whose port has a row.
  unfoldable pub live : List (CString × PmPort) → List (CString × PmPort)
  live [] = []
  live ((name, p) ∷ ports) = elim (I.interface_get_for_uuid db p.uuid) [
    | none ↦ live ports
    | some _ ↦ (name, p) ∷ live ports
  ]

  delete_ports-gone :
      (name : CString) (p : PmPort) (ports kept : List (CString × PmPort))
      → I.interface_get_for_uuid db p.uuid ≡ none
      → (delete_ports I db ((name, p) ∷ ports) kept
          ≡ delete_ports I db ports (delete_first p.instance_name kept))
        × (live ((name, p) ∷ ports) ≡ live ports)
  unfolding delete_ports live
  delete_ports-gone name p ports kept e = (rw (e, delete_ports), rw (e, live))

  delete_ports-row :
      (name : CString) (p : PmPort) (ports kept : List (CString × PmPort)) {row : IntfRow}
      → I.interface_get_for_uuid db p.uuid ≡ some row
      → (delete_ports I db ((name, p) ∷ ports) kept ≡ delete_ports I db ports kept)
        × (live ((name, p) ∷ ports) ≡ (name, p) ∷ live ports)
  unfolding delete_ports live
  delete_ports-row name p ports kept e = (rw (e, delete_ports), rw (e, live))

  delete_ports-append :
      (pre ports : List (CString × PmPort))
      → All IsKept ports
      → NewNames pre ports
      → HasUniqueKeys ports
      → delete_ports I db ports (pre ++ ports) ≡ pre ++ live ports
  delete_ports-append pre [] k new u = unfold delete_ports live in refl
  delete_ports-append pre ((name, p) ∷ ports) k new u =
      let shift = append_assoc pre ((name, p) ∷ []) ports in
      let ih =
        delete_ports-append (pre ++ ((name, p) ∷ [])) ports k.1
          (NewNames-append name p pre ports new.1 u.0) u.1 in
      elim (Option-cases (I.interface_get_for_uuid db p.uuid)) [
        | inl e ↦
            let (step, rest) = delete_ports-gone name p ports (pre ++ ((name, p) ∷ ports)) e in
            step
            ∙ ap (λ key. delete_ports I db ports (delete_first key (pre ++ ((name, p) ∷ ports))))
                (sym k.0.0)
            ∙ ap (delete_ports I db ports) (delete_first-append name p pre ports new.0)
            ∙ delete_ports-append pre ports k.1 new.1 u.1
            ∙ ap (λ r. pre ++ r) (sym rest)
        | inr (row, e) ↦
            let (step, rest) = delete_ports-row name p ports (pre ++ ((name, p) ∷ ports)) e in
            step
            ∙ ap (delete_ports I db ports) (sym shift)
            ∙ ih
            ∙ append_assoc pre ((name, p) ∷ []) (live ports)
            ∙ ap (λ r. pre ++ r) (sym rest)
      ]

  NewNames-nil : (m : List (CString × PmPort)) → NewNames [] m
  unfolding find
  NewNames-nil [] = tt
  NewNames-nil (n ∷ m) = (refl, NewNames-nil m)

  -- On a valid map the loop that deletes entries of the map while it walks over it leaves exactly the
  -- entries whose port has a row in the database, in their order.
  pub delete_ports-live :
      (ports : List (CString × PmPort)) → IsValid ports → delete_ports I db ports ports ≡ live ports
  delete_ports-live ports v = delete_ports-append [] ports v.kept (NewNames-nil ports) v.unique

  -- A port with a row in the database.
  abbrev pub HasRow : CString × PmPort → Type 0
  HasRow n = (row : IntfRow) × (I.interface_get_for_uuid db n.1.uuid ≡ some row)

  pub live-HasRow : (ports : List (CString × PmPort)) → All HasRow (live ports)
  live-HasRow [] = unfold live in tt
  live-HasRow ((name, p) ∷ ports) = elim (Option-cases (I.interface_get_for_uuid db p.uuid)) [
    | inl e ↦ rw ((delete_ports-gone name p ports [] e).1) (live-HasRow ports)
    | inr (row, e) ↦ rw ((delete_ports-row name p ports [] e).1) ((row, e), live-HasRow ports)
  ]

  pub live-All :
      (Q : CString × PmPort → Type 0) (ports : List (CString × PmPort))
      → All Q ports
      → All Q (live ports)
  live-All Q [] h = unfold live in tt
  live-All Q ((name, p) ∷ ports) h = elim (Option-cases (I.interface_get_for_uuid db p.uuid)) [
    | inl e ↦ rw ((delete_ports-gone name p ports [] e).1) (live-All Q ports h.1)
    | inr (row, e) ↦ rw ((delete_ports-row name p ports [] e).1) (h.0, live-All Q ports h.1)
  ]

  IsNew-live : (k : CString) (m : List (CString × PmPort)) → IsNew k m → IsNew k (live m)
  unfolding find
  IsNew-live k [] h = unfold live in refl
  IsNew-live k ((name, p) ∷ m) h = elim (Option-cases (I.interface_get_for_uuid db p.uuid)) [
    | inl e ↦ rw ((delete_ports-gone name p m [] e).1) (IsNew-live k m (others k (name, p) m h))
    | inr (row, e) ↦ rw ((delete_ports-row name p m [] e).1) (ground (arith, IsNew-live k m))
  ]

  live-HasUniqueKeys : (m : List (CString × PmPort)) → HasUniqueKeys m → HasUniqueKeys (live m)
  live-HasUniqueKeys [] h = unfold live in tt
  live-HasUniqueKeys ((name, p) ∷ m) h = elim (Option-cases (I.interface_get_for_uuid db p.uuid)) [
    | inl e ↦ rw ((delete_ports-gone name p m [] e).1) (live-HasUniqueKeys m h.1)
    | inr (row, e) ↦
        rw ((delete_ports-row name p m [] e).1) (IsNew-live name m h.0, live-HasUniqueKeys m h.1)
  ]

  pub live-IsValid : (ports : List (CString × PmPort)) → IsValid ports → IsValid (live ports)
  live-IsValid ports v = record {
    kept = live-All IsKept ports v.kept;
    unique = live-HasUniqueKeys ports v.unique;
  }
