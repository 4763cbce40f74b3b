-- ===== src/Detect/Fields.antt =====
-- src/pm_detect.c: the texts that `pm_parse` makes of fixed-width fields padded with spaces.
use ops_pmd.Base.{
  ℕ, zero, suc, ◌-◌, ◌≡◌, refl, true, false, List, [], ◌∷◌, ◌++◌, CString, c_string, ◌==◌,
  if◌then◌else◌, get_or, set, take, length, arith, ap, ◌∙◌, sym, append_assoc, All, Bool-cases, inl,
  inr,
}
use ops_pmd.Format.{space}
use ops_pmd.Detect.{strip_spaces, text_field}

-- The text without the spaces at its end.
unfoldable pub rstrip : CString → CString
rstrip [] = []
rstrip (c ∷ cs) =
    let r = rstrip cs in elim r [ [] ↦ if c == space then [] else c ∷ [] | d ∷ ds ↦ c ∷ d ∷ ds ]

-- The loop over all the places below an index, the first included.
strip_all : ℕ → List ℕ → List ℕ
strip_all zero buf = buf
strip_all (suc idx) buf = if get_or buf idx 0 == space then strip_all idx (set buf idx 0) else buf

strip_spaces-cons : (idx c : ℕ) (buf : List ℕ) → strip_spaces idx (c ∷ buf) ≡ c ∷ strip_all idx buf
unfolding strip_spaces strip_all
strip_spaces-cons zero c buf = refl
strip_spaces-cons (suc idx) c buf = ground (arith, strip_spaces-cons idx c (set buf idx 0))

-- A list that is not empty, by its last element.
unsnoc :
    (n : ℕ) (xs : List ℕ)
    → length xs ≡ suc n
    → (ys : List ℕ) × (y : ℕ) × (xs ≡ ys ++ (y ∷ [])) × (length ys ≡ n)
unsnoc n [] h = absurd (omega arith)
unsnoc zero (x ∷ []) h = ([], x, refl, refl)
unsnoc (suc n) (x ∷ []) h = absurd (omega arith)
unsnoc zero (x ∷ x' ∷ xs) h = absurd (omega arith)
unsnoc (suc n) (x ∷ x' ∷ xs) h =
    let (ys, y, e, l) = unsnoc n (x' ∷ xs) (omega arith) in
    (x ∷ ys, y, ap (λ r. x ∷ r) e, omega arith)

get_or-snoc : (xs zs : List ℕ) (y n : ℕ) → length xs ≡ n → get_or (xs ++ (y ∷ zs)) n 0 ≡ y
get_or-snoc [] zs y zero h = refl
get_or-snoc [] zs y (suc n) h = absurd (omega arith)
get_or-snoc (x ∷ xs) zs y zero h = absurd (omega arith)
get_or-snoc (x ∷ xs) zs y (suc n) h = get_or-snoc xs zs y n (omega arith)

set-snoc : (xs zs : List ℕ) (y v n : ℕ) → length xs ≡ n → set (xs ++ (y ∷ zs)) n v ≡ xs ++ (v ∷ zs)
set-snoc [] zs y v zero h = refl
set-snoc [] zs y v (suc n) h = absurd (omega arith)
set-snoc (x ∷ xs) zs y v zero h = absurd (omega arith)
set-snoc (x ∷ xs) zs y v (suc n) h = ap (λ r. x ∷ r) (set-snoc xs zs y v n (omega arith))

c_string-append-zero : (xs zs : List ℕ) → c_string (xs ++ (0 ∷ zs)) ≡ c_string xs
unfolding c_string
c_string-append-zero [] zs = refl
c_string-append-zero (x ∷ xs) zs = ground (arith, c_string-append-zero xs zs)

rstrip-snoc_space :
    (xs : List ℕ) (y : ℕ) → (y == space) ≡ true → rstrip (xs ++ (y ∷ [])) ≡ rstrip xs
unfolding rstrip
rstrip-snoc_space [] y h = ground arith
rstrip-snoc_space (x ∷ xs) y h = rw (rstrip-snoc_space xs y h)

rstrip-snoc_other :
    (xs : List ℕ) (y : ℕ) → (y == space) ≡ false → rstrip (xs ++ (y ∷ [])) ≡ xs ++ (y ∷ [])
unfolding rstrip
rstrip-snoc_other [] y h = ground arith
rstrip-snoc_other (x ∷ []) y h = ground arith
rstrip-snoc_other (x ∷ x' ∷ xs) y h = rw (rstrip-snoc_other (x' ∷ xs) y h)

strip_all-snoc :
    (n : ℕ) (ys zs : List ℕ) (y : ℕ)
    → length ys ≡ n
    → c_string (strip_all n (ys ++ (0 ∷ 0 ∷ zs))) ≡ c_string (rstrip ys)
    → c_string (strip_all (suc n) (ys ++ (y ∷ 0 ∷ zs))) ≡ c_string (rstrip (ys ++ (y ∷ [])))
unfolding strip_all
strip_all-snoc n ys zs y l ih = elim (Bool-cases (y == space)) [
  | inl e ↦
      rw (get_or-snoc ys (0 ∷ zs) y n l, e, set-snoc ys (0 ∷ zs) y 0 n l, rstrip-snoc_space ys y e)
        ih
  | inr e ↦
      rw (get_or-snoc ys (0 ∷ zs) y n l, e, rstrip-snoc_other ys y e)
        (ap c_string (sym (append_assoc ys (y ∷ []) (0 ∷ zs)))
          ∙ c_string-append-zero (ys ++ (y ∷ [])) zs)
]

-- The loop on a text with NULs behind it leaves the C string without its trailing spaces.
c_string-strip_all :
    (n : ℕ) (xs zs : List ℕ)
    → length xs ≡ n
    → c_string (strip_all n (xs ++ (0 ∷ zs))) ≡ c_string (rstrip xs)
c_string-strip_all zero [] zs h = unfold strip_all c_string rstrip in refl
c_string-strip_all zero (x ∷ xs) zs h = absurd (omega arith)
c_string-strip_all (suc n) xs zs h =
    let (ys, y, e, l) = unsnoc n xs h in
    ap (λ r. c_string (strip_all (suc n) r))
      (ap (λ r. r ++ (0 ∷ zs)) e ∙ append_assoc ys (y ∷ []) (0 ∷ zs))
    ∙ strip_all-snoc n ys zs y l (c_string-strip_all n ys (0 ∷ zs) l)
    ∙ ap (λ r. c_string (rstrip r)) (sym e)

take_all : (n : ℕ) (xs : List ℕ) → length xs ≡ n → take n xs ≡ xs
take_all zero [] h = refl
take_all zero (x ∷ xs) h = absurd (omega arith)
take_all (suc n) [] h = refl
take_all (suc n) (x ∷ xs) h = ap (λ r. x ∷ r) (take_all n xs (omega arith))

-- A field of exactly `len` characters, at least one, becomes its C string without the trailing
-- spaces of the array, but the first character stays even where it is a space.
pub text_field-rstrip :
    (len c : ℕ) (cs : List ℕ)
    → suc (length cs) ≡ len
    → text_field len (c ∷ cs) ≡ c_string (c ∷ rstrip cs)
unfolding text_field
text_field-rstrip zero c cs h = absurd (omega arith)
text_field-rstrip (suc n) c cs h =
    ap (λ r. c_string (strip_spaces (suc n - 1) (c ∷ (r ++ (0 ∷ [])))))
      (take_all n cs (omega arith))
    ∙ ap (λ k. c_string (strip_spaces k (c ∷ (cs ++ (0 ∷ []))))) (omega arith)
    ∙ ap c_string (strip_spaces-cons n c (cs ++ (0 ∷ [])))
    ∙ unfold c_string in
      ap (λ r. if c == 0 then [] else c ∷ r) (c_string-strip_all n cs [] (omega arith))

rstrip-cons : (c : ℕ) (cs : List ℕ) → (c == space) ≡ false → rstrip (c ∷ cs) ≡ c ∷ rstrip cs
unfolding rstrip
rstrip-cons c cs h =
    elim (rstrip cs)
      as (λ r. elim r [ [] ↦ if c == space then [] else c ∷ [] | d ∷ ds ↦ c ∷ d ∷ ds ] ≡ c ∷ r) [
        | [] ↦ rw h refl
        | d ∷ ds ↦ refl
      ]

-- No space at all stands in a text.
abbrev HasNoSpace : List ℕ → Type 0
HasNoSpace = All (λ c. (c == space) ≡ false)

c_string-rstrip_literal :
    (text behind : List ℕ)
    → HasNoSpace text
    → c_string (rstrip (text ++ (0 ∷ behind))) ≡ c_string text
unfolding c_string
c_string-rstrip_literal [] behind h = rw (rstrip-cons 0 behind refl) refl
c_string-rstrip_literal (c ∷ cs) behind h =
    rw (rstrip-cons c (cs ++ (0 ∷ behind)) h.0)
      (ap (λ r. if c == 0 then [] else c ∷ r) (c_string-rstrip_literal cs behind h.1))

-- A literal with no space behind its first character that is shorter than its field: whatever bytes
-- `memcpy` copies from behind its NUL, the text is the literal as a C string.
text_field-literal :
    (len c : ℕ) (cs behind : List ℕ)
    → suc (length (cs ++ (0 ∷ behind))) ≡ len
    → HasNoSpace cs
    → text_field len (c ∷ (cs ++ (0 ∷ behind))) ≡ c_string (c ∷ cs)
text_field-literal len c cs behind h clean =
    text_field-rstrip len c (cs ++ (0 ∷ behind)) h
    ∙ unfold c_string in
      ap (λ r. if c == 0 then [] else c ∷ r) (c_string-rstrip_literal cs behind clean)
