-- ===== src/Registry/Lookup.antt =====
-- What the lookup finds, and that the capabilities announced are the tests that can be run.
use flight_computer_test.Base.{
  ℕ, ◌<◌, ◌≡◌, ◌≢◌, refl, ap, false, Option, none, some, List, [], ◌∷◌, Bytes, get_elem?,
  bytes_equal, bytes_equal→eq, bytes_equal_refl, All, arith, Bool-cases, inl, inr, zero, suc,
}
use flight_computer_test.Registry.{
  Definition, Externs, production_tests, find_in, component_registry_find,
  component_registry_capability_at, component_registry_capability_count,
}

bytes_equal-ne : (a b : Bytes) → bytes_equal a b ≡ false → a ≢ b
bytes_equal-ne a b h e = cc (bytes_equal_refl b, ap (λ x. bytes_equal x b) e)

module _ {W : Type 0} where
  -- `d` is the first definition of its type.
  pub data FirstOf (d : Definition W) (type : Bytes) : List (Definition W) → Type 0 where
    first : {rest : List (Definition W)} → d.type ≡ type → FirstOf d type (d ∷ rest)
    later :
        {x : Definition W} {rest : List (Definition W)}
        → x.type ≢ type
        → FirstOf d type rest
        → FirstOf d type (x ∷ rest)

  -- What the lookup may answer: the first entry of the type asked for, and NULL only if no entry
  -- has that type.
  abbrev pub Answers : List (Definition W) → Bytes → Option (Definition W) → Type 0
  Answers definitions type none = All (λ d. d.type ≢ type) definitions
  Answers definitions type (some d) = FirstOf d type definitions

  later-Answers :
      (x : Definition W) (definitions : List (Definition W)) (type : Bytes)
      (answer : Option (Definition W))
      → x.type ≢ type
      → Answers definitions type answer
      → Answers (x ∷ definitions) type answer
  later-Answers x definitions type none other a = (other, a)
  later-Answers x definitions type (some d) other a = later other a

  find_in-Answers :
      (definitions : List (Definition W)) (type : Bytes)
      → Answers definitions type (find_in definitions type)
  unfolding find_in
  find_in-Answers [] type = tt
  find_in-Answers (x ∷ definitions) type = elim (Bool-cases (bytes_equal x.type type)) [
    | inl same ↦ rw same (first (bytes_equal→eq x.type type same))
    | inr other ↦ rw other (
        later-Answers x definitions type (find_in definitions type)
          (bytes_equal-ne x.type type other) (find_in-Answers definitions type))
  ]

  -- The lookup answers with the first entry of the type asked for, and with NULL exactly if no
  -- entry has that type.
  pub component_registry_find-Answers :
      (definitions : List (Definition W)) (type : Bytes)
      → Answers definitions type (component_registry_find (some definitions) (some type))
  unfolding component_registry_find
  component_registry_find-Answers definitions type = find_in-Answers definitions type

  -- Each capability that the firmware announces is found, at its own place in the table.
  pub capability-find :
      (e : Externs W) (index : ℕ)
      → index < component_registry_capability_count e
      → (d : Definition W) × (get_elem? (production_tests e) index ≡ some d)
        × (component_registry_capability_at e index ≡ some d.type)
        × (component_registry_find (some (production_tests e)) (some d.type) ≡ some d)
  unfolding component_registry_capability_at component_registry_capability_count
      component_registry_find bytes_equal
  capability-find e zero h = (_, refl, refl, refl)
  capability-find e (suc zero) h = (_, refl, refl, refl)
  capability-find e (suc (suc zero)) h = (_, refl, refl, refl)
  capability-find e (suc (suc (suc zero))) h = (_, refl, refl, refl)
  capability-find e (suc (suc (suc (suc zero)))) h = (_, refl, refl, refl)
  capability-find e (suc (suc (suc (suc (suc zero))))) h = (_, refl, refl, refl)
  capability-find e (suc (suc (suc (suc (suc (suc n)))))) h = absurd (omega arith)
