-- ===== src/SdCard/Driver/Ensures.antt =====
-- What an action of the card driver ensures on each outcome, and how that goes through its parts.
use flight_computer_test.Base.{
  Bool, true, false, ◌≡◌, refl, sym, subst, Option, none, some, if◌then◌else◌,
}
use flight_computer_test.SdCard.Driver.{
  SdCardDriver, Outcome, ok, failed, out_of_fuel, Action, pure, gets, stop, modify, continue, ◌>>=◌,
  require, require_some,
}

-- `Q` holds after a success, `E` after a failure, and `F` if the fuel runs out.
abbrev pub Settles :
    {H A : Type 0}
    → (A → SdCardDriver H → Type 0)
    → (SdCardDriver H → Type 0)
    → Type 0
    → Outcome A × SdCardDriver H
    → Type 0
Settles Q E F (ok a, s) = Q a s
Settles Q E F (failed, s) = E s
Settles Q E F (out_of_fuel, s) = F

-- From any state with `P`.
pub record Ensures {H A : Type 0} (P : SdCardDriver H → Type 0) (m : Action H A)
    (Q : A → SdCardDriver H → Type 0) (E : SdCardDriver H → Type 0) (F : Type 0) : Type 0 where
  pub settles : (s : SdCardDriver H) → P s → Settles Q E F (m s)

Settles-continue :
    {H A B : Type 0} {E : SdCardDriver H → Type 0} {F : Type 0} {Q : A → SdCardDriver H → Type 0}
    {R : B → SdCardDriver H → Type 0} {f : A → Action H B}
    → ((a : A) → Ensures (Q a) (f a) R E F)
    → (r : Outcome A × SdCardDriver H) → Settles Q E F r
    → Settles R E F (continue r f)
Settles-continue g (ok a, s) q = (g a).settles s q
Settles-continue g (failed, s) e = e
Settles-continue g (out_of_fuel, s) e = e

Settles-into :
    {H A : Type 0} (E : SdCardDriver H → Type 0) (F : Type 0) {Q R : A → SdCardDriver H → Type 0}
    → ((a : A) (s : SdCardDriver H) → Q a s → R a s)
    → (r : Outcome A × SdCardDriver H) → Settles Q E F r
    → Settles R E F r
Settles-into E F f (ok a, s) q = f a s q
Settles-into E F f (failed, s) e = e
Settles-into E F f (out_of_fuel, s) e = e

Settles-else :
    {H A : Type 0} {E E' : SdCardDriver H → Type 0} (Q : A → SdCardDriver H → Type 0) (F : Type 0)
    → ((s : SdCardDriver H) → E s → E' s)
    → (r : Outcome A × SdCardDriver H) → Settles Q E F r
    → Settles Q E' F r
Settles-else Q F f (ok a, s) q = q
Settles-else Q F f (failed, s) e = f s e
Settles-else Q F f (out_of_fuel, s) e = e

pub Settles-both :
    {H A : Type 0} (Q R : A → SdCardDriver H → Type 0) (E E' : SdCardDriver H → Type 0)
    (F F' : Type 0) (r : Outcome A × SdCardDriver H)
    → Settles Q E F r
    → Settles R E' F' r
    → Settles (λ a s. Q a s × R a s) E F r
Settles-both Q R E E' F F' (ok a, s) q r = (q, r)
Settles-both Q R E E' F F' (failed, s) e _ = e
Settles-both Q R E E' F F' (out_of_fuel, s) e _ = e

module _ {H A : Type 0} {P E : SdCardDriver H → Type 0} {F : Type 0} where
  infixr 4 ◌▷◌
  pub ◌▷◌ :
      {B : Type 0} {Q : A → SdCardDriver H → Type 0} {R : B → SdCardDriver H → Type 0}
      {m : Action H A} {f : A → Action H B}
      → Ensures P m Q E F
      → ((a : A) → Ensures (Q a) (f a) R E F)
      → Ensures P (m >>= f) R E F
  unfolding ◌>>=◌
  ◌▷◌ {m = m} h g = record { settles = λ s p. Settles-continue g (m s) (h.settles s p) }

  pub pure-Ensures : (a : A) → Ensures P (pure a) (λ _. P) E F
  unfolding pure
  pure-Ensures a = record { settles = λ s p. p }

  pub gets-Ensures : (f : SdCardDriver H → A) → Ensures P (gets f) (λ a s. P s × (f s ≡ a)) E F
  unfolding gets
  gets-Ensures f = record { settles = λ s p. (p, refl) }

  pub if-Ensures :
      (b : Bool) {Q : A → SdCardDriver H → Type 0} {m n : Action H A}
      → Ensures P m Q E F
      → Ensures P n Q E F
      → Ensures P (if b then m else n) Q E F
  if-Ensures true h g = h
  if-Ensures false h g = g

  -- A weaker state before, and a weaker one after.
  pub from-Ensures :
      {P' : SdCardDriver H → Type 0} {Q : A → SdCardDriver H → Type 0} {m : Action H A}
      → ((s : SdCardDriver H) → P' s → P s)
      → Ensures P m Q E F
      → Ensures P' m Q E F
  from-Ensures into h = record { settles = λ s p. h.settles s (into s p) }

  pub into-Ensures :
      {Q R : A → SdCardDriver H → Type 0} {m : Action H A}
      → ((a : A) (s : SdCardDriver H) → Q a s → R a s)
      → Ensures P m Q E F
      → Ensures P m R E F
  into-Ensures {m = m} f h = record { settles = λ s p. Settles-into E F f (m s) (h.settles s p) }

  pub else-Ensures :
      {E' : SdCardDriver H → Type 0} {Q : A → SdCardDriver H → Type 0} {m : Action H A}
      → ((s : SdCardDriver H) → E s → E' s)
      → Ensures P m Q E F
      → Ensures P m Q E' F
  else-Ensures {Q = Q} {m = m} f h = record {
    settles = λ s p. Settles-else Q F f (m s) (h.settles s p);
  }

  -- Two things that an action ensures.
  pub both-Ensures :
      {E' : SdCardDriver H → Type 0} {F' : Type 0} {Q R : A → SdCardDriver H → Type 0}
      {m : Action H A}
      → Ensures P m Q E F
      → Ensures P m R E' F'
      → Ensures P m (λ a s. Q a s × R a s) E F
  both-Ensures {E' = E'} {F' = F'} {Q = Q} {R = R} {m = m} h g = record {
    settles = λ s p. Settles-both Q R E E' F F' (m s) (h.settles s p) (g.settles s p);
  }

  pub return-Ensures :
      {Q : A → SdCardDriver H → Type 0} (a : A)
      → ((s : SdCardDriver H) → P s → Q a s)
      → Ensures P (pure a) Q E F
  unfolding pure
  return-Ensures a into = record { settles = into }

  pub require_some-Ensures :
      (o : Option A) {m : Action H A} {Q : A → SdCardDriver H → Type 0}
      → ((a : A) → o ≡ some a → (s : SdCardDriver H) → P s → Q a s)
      → Ensures P m Q E F
      → Ensures P (require_some o m) Q E F
  unfolding require_some pure
  require_some-Ensures none into h = h
  require_some-Ensures (some a) into h = record { settles = λ s p. into a refl s p }

  -- A fact that holds before, and that no state changes.
  pub given-Ensures :
      {X : Type 0} {Q : A → SdCardDriver H → Type 0} {m : Action H A}
      → (X → Ensures P m Q E F)
      → Ensures (λ s. P s × X) m Q E F
  given-Ensures h = record { settles = λ s p. (h p.1).settles s p.0 }

  -- A value that is read from the state, where the state decides it.
  pub gets-then-Ensures :
      {B : Type 0} (f : SdCardDriver H → A) (k : A → Action H B) {Q : B → SdCardDriver H → Type 0}
      (a : A)
      → ((s : SdCardDriver H) → P s → f s ≡ a)
      → Ensures P (k a) Q E F
      → Ensures P (gets f >>= k) Q E F
  unfolding gets ◌>>=◌
  gets-then-Ensures f k {Q = Q} a decided h = record {
    settles = λ s p. subst (λ a. Settles Q E F (k a s)) (sym (decided s p)) (h.settles s p);
  }

module _ {H : Type 0} {P E : SdCardDriver H → Type 0} {F : Type 0} where
  pub modify-Ensures :
      (f : SdCardDriver H → SdCardDriver H) {Q : SdCardDriver H → Type 0}
      → ((s : SdCardDriver H) → P s → Q (f s))
      → Ensures P (modify f) (λ _. Q) E F
  unfolding modify
  modify-Ensures f into = record { settles = λ s p. into s p }

  pub require-Ensures :
      (b : Bool) {m : Action H (Unit {0})} {Q : SdCardDriver H → Type 0}
      → (b ≡ true → (s : SdCardDriver H) → P s → Q s)
      → Ensures P m (λ _. Q) E F
      → Ensures P (require b m) (λ _. Q) E F
  unfolding require pure
  require-Ensures true into h = record { settles = λ s p. into refl s p }
  require-Ensures false into h = h

  -- The same, where what fails is met only if the test does not hold.
  pub unless-Ensures :
      (b : Bool) {m : Action H (Unit {0})} {Q : SdCardDriver H → Type 0}
      → (b ≡ true → (s : SdCardDriver H) → P s → Q s)
      → (b ≡ false → Ensures P m (λ _. Q) E F)
      → Ensures P (require b m) (λ _. Q) E F
  unfolding require pure
  unless-Ensures true into h = record { settles = λ s p. into refl s p }
  unless-Ensures false into h = h refl

module _ {H A : Type 0} {P E : SdCardDriver H → Type 0} where
  -- An action without fuel ensures anything of the outcomes with fuel.
  pub stop-Ensures : {Q : A → SdCardDriver H → Type 0} → Ensures P stop Q E Unit
  unfolding stop
  stop-Ensures = record { settles = λ s p. tt }
