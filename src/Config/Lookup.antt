-- ===== src/Config/Lookup.antt =====
-- src/config.c: the search of `pm_get_yaml_port`.
use ops_pmd.Base.{
  ℕ, zero, suc, ◌+◌, ◌<◌, ◌≤◌, ◌≡◌, refl, Bool, true, false, Option, none, some, CString, str_eq,
  arith, ◌⊎◌, inl, inr, Bool-cases,
}
use ops_pmd.Port.{YamlPort}
use ops_pmd.Platform.{Platform}
use ops_pmd.Config.{find_yaml_port, pm_get_yaml_port}

module _ (P : Platform) (w : P.World) (subsystem name : CString) where
  abbrev named : ℕ → Bool
  named i = str_eq (P.yaml_get_port w subsystem i).name name

  -- The port at the first index from `start` on with the name, or none where no index has it.
  abbrev IsFirstFrom : ℕ → ℕ → Option YamlPort → Type 0
  IsFirstFrom start count none = (i : ℕ) → start ≤ i → i < start + count → named i ≡ false
  IsFirstFrom start count (some port) =
      (n : ℕ) × (start ≤ n)
      × (n < start + count)
      × (port ≡ P.yaml_get_port w subsystem n)
      × (named n ≡ true)
      × ((i : ℕ) → start ≤ i → i < n → named i ≡ false)

  abbrev pub IsFirstNamed : ℕ → Option YamlPort → Type 0
  IsFirstNamed = IsFirstFrom 0

  start_or_later : (start i : ℕ) → start ≤ i → (i ≡ start) ⊎ (suc start ≤ i)
  start_or_later start i h = omega arith

  skip :
      (start i : ℕ)
      → named start ≡ false
      → (suc start ≤ i → named i ≡ false)
      → start ≤ i
      → named i ≡ false
  skip start i miss later h = elim (start_or_later start i h) [
    | inl e ↦ rw e miss
    | inr l ↦ later l
  ]

  later_IsFirst :
      (start count : ℕ) (found : Option YamlPort)
      → named start ≡ false
      → IsFirstFrom (start + 1) count found
      → IsFirstFrom start (suc count) found
  later_IsFirst start count none miss h =
      λ i low high. skip start i miss (λ l. h i (omega arith) (omega arith)) low
  later_IsFirst start count (some port) miss (n, low, high, same, hit, before) = (
    n,
    omega arith,
    omega arith,
    same,
    hit,
    λ i l b. skip start i miss (λ k. before i (omega arith) b) l,
  )

  find_yaml_port-IsFirstFrom :
      (start count : ℕ) → IsFirstFrom start count (find_yaml_port P w subsystem name start count)
  unfolding find_yaml_port
  find_yaml_port-IsFirstFrom start zero = λ i low high. absurd (omega arith)
  find_yaml_port-IsFirstFrom start (suc count) = elim (Bool-cases (named start)) [
    | inl e ↦
        rw (e, find_yaml_port)
          (start, omega arith, omega arith, refl, e, λ i low high. absurd (omega arith))
    | inr e ↦
        rw (e, find_yaml_port)
          (later_IsFirst start count (find_yaml_port P w subsystem name (start + 1) count) e
            (find_yaml_port-IsFirstFrom (start + 1) count))
  ]

  -- The lookup finds the port with the least index among those of the subsystem that have the name,
  -- and finds none exactly where none of them has it.
  pub pm_get_yaml_port-IsFirstNamed :
      IsFirstNamed (P.yaml_get_port_count w subsystem) (pm_get_yaml_port P w subsystem name)
  unfolding pm_get_yaml_port
  pm_get_yaml_port-IsFirstNamed = find_yaml_port-IsFirstFrom 0 (P.yaml_get_port_count w subsystem)
