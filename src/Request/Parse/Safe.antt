-- ===== src/Request/Parse/Safe.antt =====
-- The walk over the tokens ends, and reads no token that the tokenizer has not returned.
use flight_computer_test.Base.{
  ℕ, zero, suc, ◌+◌, ◌-◌, ◌%◌, ◌≤◌, ◌<◌, ◌≡◌, refl, Bool, true, false, not, ◌||◌, Option, none,
  some, List, [], ◌∷◌, Bytes, length, ltb, ltb→lt, if◌then◌else◌, arith,
}
use flight_computer_test.Base.Text.{codes}
use flight_computer_test.Request.{Token, is_object, Request, token_equals}
use flight_computer_test.Request.Parse.{
  Parsed, ok, rejected, out_of_range, out_of_fuel, ◌>>=◌, token_at, unless_seen, Channels, channel,
  channels, no_channels, finish_channels, parse_rgb_parameters, Members, parameters_member,
  version_member, type_member, command_id_member, test_uuid_member, test_type_member, member,
  members, no_members, finish_request, parse_tokens, has_request_size,
}

-- A step that neither reads outside nor runs out of fuel, and whose result has a property.
abbrev pub Returns {ℓ} : {A : Type ℓ} → (A → Type 0) → Parsed A → Type 0
Returns P (ok a) = P a
Returns P rejected = Unit
Returns P out_of_range = ⊥
Returns P out_of_fuel = ⊥

Returns-bind :
    {A B : Type 0} (P : A → Type 0) (Q : B → Type 0) (m : Parsed A) (f : A → Parsed B)
    → Returns P m
    → ((a : A) → P a → Returns Q (f a))
    → Returns Q (m >>= f)
Returns-bind P Q (ok a) f p k = k a p
Returns-bind P Q rejected f p k = tt
Returns-bind P Q out_of_range f p k = p
Returns-bind P Q out_of_fuel f p k = p

Returns-if :
    {A : Type 0} (P : A → Type 0) (b : Bool) (x y : Parsed A)
    → (b ≡ true → Returns P x)
    → (b ≡ false → Returns P y)
    → Returns P (if b then x else y)
Returns-if P true x y f g = f refl
Returns-if P false x y f g = g refl

-- What holds of every result.
abbrev pub Anything {ℓ} : {A : Type ℓ} → A → Type 0
Anything a = Unit

token_at-Returns :
    (tokens : List Token) (index : ℕ)
    → index < length tokens
    → Returns Anything (token_at tokens index)
token_at-Returns [] index h = elim h [ ]
token_at-Returns (t ∷ tokens) zero h = tt
token_at-Returns (t ∷ tokens) (suc index) h = token_at-Returns tokens index (omega arith)

unless_seen-Returns :
    {A : Type 0} (seen : Bool) (found : Option A) → Returns Anything (unless_seen seen found)
unless_seen-Returns true found = tt
unless_seen-Returns false none = tt
unless_seen-Returns false (some a) = tt

-- The walk stands on a key: at an odd index, inside the tokens or just behind them.
abbrev OnKey : ℕ → ℕ → Type 0
OnKey n index = (index % 2 ≡ 1) × (index ≤ n)

-- The same, and not in front of where it stood.
abbrev Forward : ℕ → ℕ → ℕ → Type 0
Forward n from index = OnKey n index × (from ≤ index)

channel-Returns :
    (line : Bytes) (key value : Token) (c : Channels) → Returns Anything (channel line key value c)
unfolding channel
channel-Returns line key value c = ground arith

channels-Returns :
    (from fuel : ℕ) (line : Bytes) (tokens : List Token) (parameters : Token) (index : ℕ)
    (c : Channels)
    → from ≤ index
    → length tokens % 2 ≡ 1
    → OnKey (length tokens) index
    → length tokens < index + fuel
    → Returns
        (λ out. Forward (length tokens) from out.0)
        (channels fuel line tokens parameters index c)
unfolding channels
channels-Returns from zero line tokens parameters index c low odd on enough = absurd (omega arith)
channels-Returns from (suc fuel) line tokens parameters index c low odd on enough =
    Returns-if (λ out. Forward (length tokens) from out.0) (ltb (index + 1) (length tokens)) _ _
      (λ more.
        let next : index + 1 < length tokens = ltb→lt (index + 1) (length tokens) more in
        Returns-bind Anything (λ out. Forward (length tokens) from out.0) (token_at tokens index) _
          (token_at-Returns tokens index (omega arith))
          (λ t _.
            Returns-if (λ out. Forward (length tokens) from out.0) (ltb t.start parameters.end) _ _
              (λ _.
                Returns-bind Anything (λ out. Forward (length tokens) from out.0)
                  (token_at tokens index) _ (token_at-Returns tokens index (omega arith))
                  (λ key _.
                    Returns-bind Anything (λ out. Forward (length tokens) from out.0)
                      (token_at tokens (index + 1)) _ (token_at-Returns tokens (index + 1) next)
                      (λ value _.
                        Returns-bind Anything (λ out. Forward (length tokens) from out.0)
                          (channel line key value c) _ (channel-Returns line key value c)
                          (λ c' _.
                            channels-Returns from fuel line tokens parameters (index + 2) c'
                              (omega arith) odd (omega arith) (omega arith)))))
              (λ _. (on, low))))
      (λ _. (on, low))

parse_rgb_parameters-Returns :
    (line : Bytes) (tokens : List Token) (index : ℕ) (r : Request)
    → length tokens % 2 ≡ 1
    → OnKey (length tokens) index
    → Returns
        (λ out. Forward (length tokens) index out.0)
        (parse_rgb_parameters line tokens index r)
unfolding parse_rgb_parameters
parse_rgb_parameters-Returns line tokens index r odd on =
    Returns-bind Anything (λ out. Forward (length tokens) index out.0) (token_at tokens (index - 1))
      _ (token_at-Returns tokens (index - 1) (omega arith))
      (λ parameters _.
        Returns-bind (λ (out : ℕ × Channels). Forward (length tokens) index out.0)
          (λ out. Forward (length tokens) index out.0) _ (finish_channels tokens)
          (Returns-if (λ out. Forward (length tokens) index out.0) (not (is_object parameters.type))
            rejected _ (λ _. tt)
            (λ _.
              channels-Returns index (length tokens) line tokens parameters index (no_channels r)
                (omega arith) odd on (omega arith)))
          (λ out k.
            Returns-if (λ o. Forward (length tokens) index o.0)
              (ltb (length tokens) out.0
                || not out.1.red_seen
                || not out.1.green_seen
                || not out.1.blue_seen)
              rejected _ (λ _. tt) (λ _. k)))

module _ (line : Bytes) (value : Token) (index : ℕ) (m : Members) where
  version-Returns : Returns (λ out. out.0 ≡ index) (version_member line value index m)
  unfolding version_member
  version-Returns = ground arith

  type-Returns : Returns (λ out. out.0 ≡ index) (type_member line value index m)
  unfolding type_member
  type-Returns = ground arith

  command_id-Returns : Returns (λ out. out.0 ≡ index) (command_id_member line value index m)
  unfolding command_id_member
  command_id-Returns = ground arith

  test_uuid-Returns : Returns (λ out. out.0 ≡ index) (test_uuid_member line value index m)
  unfolding test_uuid_member
  test_uuid-Returns = ground arith

  test_type-Returns : Returns (λ out. out.0 ≡ index) (test_type_member line value index m)
  unfolding test_type_member
  test_type-Returns = ground arith

  parameters-Returns :
      (tokens : List Token)
      → length tokens % 2 ≡ 1
      → OnKey (length tokens) index
      → Returns (λ out. Forward (length tokens) index out.0) (parameters_member line tokens index m)
  unfolding parameters_member
  parameters-Returns tokens odd on =
      let rgb = parse_rgb_parameters-Returns line tokens index m.request odd on in ground arith

-- A step that leaves the index where it was.
stays :
    {A : Type 0} (n index : ℕ) (m : Parsed (ℕ × A))
    → OnKey n index
    → Returns (λ out. out.0 ≡ index) m
    → Returns (λ out. Forward n index out.0) m
stays n index (ok a) on r = omega arith
stays n index rejected on r = tt
stays n index out_of_range on r = r
stays n index out_of_fuel on r = r

member-Returns :
    (line : Bytes) (tokens : List Token) (key value : Token) (index : ℕ) (m : Members)
    → length tokens % 2 ≡ 1
    → OnKey (length tokens) index
    → Returns (λ out. Forward (length tokens) index out.0) (member line tokens key value index m)
unfolding member
member-Returns line tokens key value index m odd on =
    branch (codes "protocol_version") _ _ (λ _. keep _ (version-Returns line value index m))
      λ _.
        branch (codes "type") _ _ (λ _. keep _ (type-Returns line value index m))
          λ _.
            branch (codes "command_id") _ _ (λ _. keep _ (command_id-Returns line value index m))
              λ _.
                branch (codes "test_uuid") _ _ (λ _. keep _ (test_uuid-Returns line value index m))
                  λ _.
                    branch (codes "test_type") _ _
                      (λ _. keep _ (test_type-Returns line value index m))
                      λ _.
                        branch (codes "parameters") _ _
                          (λ _. parameters-Returns line value index m tokens odd on) λ _. tt
  where
    keep :
        (m : Parsed (ℕ × Members))
        → Returns (λ out. out.0 ≡ index) m
        → Returns (λ out. Forward (length tokens) index out.0) m
    keep m = stays (length tokens) index m on

    branch :
        (name : Bytes) (x y : Parsed (ℕ × Members))
        → (token_equals line key name ≡ true
            → Returns (λ out. Forward (length tokens) index out.0) x)
        → (token_equals line key name ≡ false
            → Returns (λ out. Forward (length tokens) index out.0) y)
        → Returns
            (λ out. Forward (length tokens) index out.0)
            (if token_equals line key name then x else y)
    branch name =
        Returns-if (λ out. Forward (length tokens) index out.0) (token_equals line key name)

members-Returns :
    (fuel : ℕ) (line : Bytes) (tokens : List Token) (index : ℕ) (m : Members)
    → length tokens % 2 ≡ 1
    → OnKey (length tokens) index
    → length tokens < index + fuel
    → Returns Anything (members fuel line tokens index m)
unfolding members
members-Returns zero line tokens index m odd on enough = absurd (omega arith)
members-Returns (suc fuel) line tokens index m odd on enough =
    Returns-if Anything (ltb index (length tokens)) _ _
      (λ more.
        let next : index < length tokens = ltb→lt index (length tokens) more in
        Returns-bind Anything Anything (token_at tokens index) _
          (token_at-Returns tokens index next)
          (λ key _.
            Returns-bind Anything Anything (token_at tokens (index + 1)) _
              (token_at-Returns tokens (index + 1) (omega arith))
              (λ value _.
                Returns-bind (λ out. Forward (length tokens) (index + 2) out.0) Anything
                  (member line tokens key value (index + 2) m) _
                  (member-Returns line tokens key value (index + 2) m odd (omega arith))
                  (λ out k. members-Returns fuel line tokens out.0 out.1 odd k.0 (omega arith)))))
      (λ _. tt)

finish_request-Returns : (n : ℕ) (m : Members) → Returns Anything (finish_request n m)
unfolding finish_request
finish_request-Returns n m = ground arith

-- The walk over the tokens of a line always ends with an accepted or a rejected request: it neither
-- runs out of fuel nor reads outside the tokens that the tokenizer has returned.
pub parse_tokens-Returns :
    (line : Bytes) (tokens : List Token) → Returns Anything (parse_tokens line tokens)
unfolding parse_tokens
parse_tokens-Returns line tokens =
    Returns-if Anything (not (has_request_size (length tokens))) rejected _ (λ _. tt)
      (λ size.
        let odd : length tokens % 2 ≡ 1 = ground arith in
        Returns-bind Anything Anything (token_at tokens 0) _
          (token_at-Returns tokens 0 (omega arith))
          (λ object _.
            Returns-bind Anything Anything _ _
              (Returns-if Anything (not (is_object object.type)) rejected _ (λ _. tt)
                (λ _.
                  members-Returns (length tokens) line tokens 1 no_members odd (omega arith)
                    (omega arith)))
              (λ m _. finish_request-Returns (length tokens) m)))
