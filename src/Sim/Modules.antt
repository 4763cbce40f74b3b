-- ===== src/Sim/Modules.antt =====
-- src/plug.c: the module of a port behind `pmd_sim_insert` and `pmd_sim_remove`.
use ops_pmd.Base.{
  ℤ, negsuc, zero, suc, ◌⊎◌, ◌++◌, ◌≤◌, ◌<◌, length, take, drop, ltb, ℕ, ◌≡◌, refl, false, Option,
  none, some, List, [], ◌∷◌, CString, codes, arith, ap, ◌∙◌, sym, subst, first_value, str_eq, find,
  modify_first, find-modify_ne, find-modify_self, Option-cases, Bool-cases, inl, inr, pos,
}
use ops_pmd.Port.{PmPort}
use ops_pmd.Sim.{put_module, read_page, Files, Ports, pmd_sim_insert, pmd_sim_remove}

-- The page of a file that may have been opened.
abbrev opened : Option (List ℕ) → Option (List ℕ)
opened none = none
opened (some bytes) = read_page bytes

no_page : {o : Option (List ℕ)} {page : List ℕ} → o ≡ none → o ≡ some page → ⊥
no_page a b = cc

-- The page that a file name leads to, if the file can be opened and is long enough.
abbrev pub page_in : Files → CString → Option (List ℕ)
page_in fopen file = opened (fopen file)

-- A change that the entry under the name does not notice.
modify_first_same :
    (k : CString) (f : PmPort → PmPort) (m : Ports) {p : PmPort}
    → find k m ≡ some p
    → f p ≡ p
    → modify_first k f m ≡ m
unfolding find modify_first
modify_first_same k f [] e h = refl
modify_first_same k f ((j, q) ∷ m) e h = elim (Bool-cases (str_eq j k)) [
  | inl s ↦
      let same = first_value _ _ _ _ s e in
      rw s (ap (λ v. (j, v) ∷ m) (subst (λ v. f v ≡ v) (sym same) h))
  | inr s ↦ rw s (ap (λ r. (j, q) ∷ r) (modify_first_same k f m (ground arith) h))
]

modify_first_twice :
    (k : CString) (f g : PmPort → PmPort) (m : Ports)
    → modify_first k f (modify_first k g m) ≡ modify_first k (λ p. f (g p)) m
unfolding modify_first
modify_first_twice k f g [] = refl
modify_first_twice k f g ((j, q) ∷ m) = ground (arith, modify_first_twice k f g m)

-- The first 128 bytes of the file.
abbrev pub HasPage : Files → CString → List ℕ → Type 0
HasPage fopen file page =
    (length page ≡ 128) × ((rest : List ℕ) × (fopen file ≡ some (page ++ rest)))

-- The file cannot be opened or has less than 128 bytes.
abbrev pub HasNoPage : Files → CString → Type 0
HasNoPage fopen file =
    (fopen file ≡ none) ⊎ ((bytes : List ℕ) × (fopen file ≡ some bytes) × (length bytes < 128))

length-take : (n : ℕ) (xs : List ℕ) → n ≤ length xs → length (take n xs) ≡ n
length-take zero xs h = refl
length-take (suc n) [] h = absurd (omega arith)
length-take (suc n) (x ∷ xs) h = ap suc (length-take n xs (omega arith))

append-take-drop : (n : ℕ) (xs : List ℕ) → xs ≡ take n xs ++ drop n xs
append-take-drop zero xs = refl
append-take-drop (suc n) [] = refl
append-take-drop (suc n) (x ∷ xs) = ap (λ r. x ∷ r) (append-take-drop n xs)

read_page-cases :
    (bytes : List ℕ)
    → ((read_page bytes ≡ none) × (length bytes < 128))
      ⊎ ((page : List ℕ) × (read_page bytes ≡ some page)
          × (length page ≡ 128)
          × ((rest : List ℕ) × (bytes ≡ page ++ rest)))
unfolding read_page
read_page-cases bytes = elim (Bool-cases (ltb (length bytes) 128)) [
  | inl e ↦ inl (rw (e, read_page), ground arith)
  | inr e ↦ inr (
    take 128 bytes,
    rw (e, read_page),
    length-take 128 bytes (ground arith),
    (drop 128 bytes, append-take-drop 128 bytes),
  )
]

-- What an insertion comes to: the file has a page, 0 is returned, and the port holds that page; or it has
-- none, -1 is returned, and the port holds no module.
abbrev pub IsInserted : Files → CString → PmPort → ℤ → Option PmPort → Type 0
IsInserted fopen file p rc after =
    ((page : List ℕ) × HasPage fopen file page
      × (rc ≡ pos 0)
      × (after ≡ some (record p { module_data = some page })))
    ⊎ (HasNoPage fopen file × (rc ≡ negsuc 0) × (after ≡ some (record p { module_data = none })))

-- `pmd_sim_insert` on a port that is there: where the file can be opened and has at least 128 bytes, it
-- returns 0 and the module of the port is the first 128 bytes of the file; otherwise it returns -1 and
-- the port has no module, so that a failing insertion removes the module that was in the port. Nothing
-- else of the port changes, and no port of another name.
pub find-pmd_sim_insert :
    (fopen : Files) (name file other : CString) (ports : Ports) (p : PmPort)
    → find name ports ≡ some p
    → str_eq name other ≡ false
    → let (rc, text, after) = pmd_sim_insert fopen name file ports in
      IsInserted fopen file p rc (find name after) × (find other after ≡ find other ports)
unfolding pmd_sim_insert
find-pmd_sim_insert fopen name file other ports p e ne =
    let emptied = modify_first name (put_module none) ports in
    let here = find-modify_self name (put_module none) ports p e in
    let there = find-modify_ne other name (put_module none) ports ne in
    elim (Option-cases (fopen file)) [
      | inl o ↦ rw (e, pmd_sim_insert, o) (inr (inl refl, refl, here), there)
      | inr (bytes, o) ↦ elim (read_page-cases bytes) [
        | inl (r, short) ↦
            rw (e, pmd_sim_insert, o, r) (inr (inr (bytes, refl, short), refl, here), there)
        | inr (page, r, whole, (rest, split)) ↦
            rw (e, pmd_sim_insert, o, r)
              (
                inl (
                  page,
                  (whole, (rest, ap some split)),
                  refl,
                  find-modify_self name (put_module (some page)) emptied (put_module none p) here,
                ),
                find-modify_ne other name (put_module (some page)) emptied ne ∙ there,
              )
      ]
    ]

-- The two updates of an insertion and that of a removal leave a port without a module as it was.
update_thrice :
    (k : CString) (page : List ℕ) (m : Ports) (p : PmPort)
    → find k m ≡ some p
    → p.module_data ≡ none
    → modify_first k
        (put_module none)
        (modify_first k (put_module (some page)) (modify_first k (put_module none) m))
      ≡ m
update_thrice k page m p e empty =
    ap (modify_first k (put_module none))
      (modify_first_twice k (put_module (some page)) (put_module none) m)
    ∙ modify_first_twice k (put_module none) (put_module (some page)) m
    ∙ modify_first_same k (put_module none) m e (ground arith)

inserted :
    (fopen : Files) (name file : CString) (ports : Ports) (p : PmPort) {page : List ℕ}
    → find name ports ≡ some p
    → page_in fopen file ≡ some page
    → (pmd_sim_insert fopen name file ports).2
      ≡ modify_first name (put_module (some page)) (modify_first name (put_module none) ports)
unfolding pmd_sim_insert
inserted fopen name file ports p e h = elim (Option-cases (fopen file)) [
  | inl o ↦ absurd (no_page (ap opened o) h)
  | inr (bytes, o) ↦ rw (e, pmd_sim_insert, o, sym (ap opened o) ∙ h)
]

removed :
    (name : CString) (ports : Ports) (p : PmPort) {page : List ℕ}
    → find name ports ≡ some p
    → p.module_data ≡ some page
    → pmd_sim_remove name ports
      ≡ (pos 0, codes "Pluggable module removed", modify_first name (put_module none) ports)
unfolding pmd_sim_remove
removed name ports p e h = rw (e, pmd_sim_remove, h)

-- Where a port has no module, the removal of a module that has been inserted from a page succeeds and
-- gives back the ports as they were.
pub pmd_sim_remove-pmd_sim_insert :
    (fopen : Files) (name file : CString) (ports : Ports) (p : PmPort) {page : List ℕ}
    → find name ports ≡ some p
    → p.module_data ≡ none
    → page_in fopen file ≡ some page
    → pmd_sim_remove name (pmd_sim_insert fopen name file ports).2
      ≡ (pos 0, codes "Pluggable module removed", ports)
pmd_sim_remove-pmd_sim_insert fopen name file ports p {page} e empty h =
    let emptied = modify_first name (put_module none) ports in
    let full = modify_first name (put_module (some page)) emptied in
    let here = find-modify_self name (put_module none) ports p e in
    ap (pmd_sim_remove name) (inserted fopen name file ports p e h)
    ∙ removed name full (put_module (some page) p)
        (find-modify_self name (put_module (some page)) emptied (put_module none p) here) refl
    ∙ ap (λ m. (pos 0, codes "Pluggable module removed", m))
        (update_thrice name page ports p e empty)
