-- ===== src/Base/Ring.antt =====
-- Circular arrays: the `n` entries from index `s` on, going round at the capacity.
use Prim.Native.Nat.{ℕ, zero, suc, ◌+◌, ◌-◌, ◌%◌, ◌≤◌, ◌<◌}
use mathlib.Core.Path.{◌≡◌, refl, ◌∙◌, ap, ap₂}
use mathlib.Core.Logic.{◌≢◌}
use mathlib.Core.List.{List, [], ◌∷◌, ◌++◌}
use native.Mathlib.Nat.{mod-add-mod, mod-eq_of_lt, add-zero}
use native.Mathlib.Omega.{arith}
use flight_computer_test.Base.Lists.{length, get_or, set, get_or-set_self, get_or-set_ne}

-- `d` stands for what a read outside the array would give.
module _ {ℓ} {A : Type ℓ} (d : A) where
  abbrev pub ring_window : List A → ℕ → ℕ → ℕ → List A
  ring_window buf cap s zero = []
  ring_window buf cap s (suc n) = get_or buf s d ∷ ring_window buf cap ((s + 1) % cap) n

  pub length-ring_window : (buf : List A) (cap s n : ℕ) → length (ring_window buf cap s n) ≡ n
  length-ring_window buf cap s zero = refl
  length-ring_window buf cap s (suc n) = ap suc (length-ring_window buf cap ((s + 1) % cap) n)

  -- A window that is not empty is its oldest entry and the window behind it.
  pub ring_window_pop :
      (buf : List A) (cap s n : ℕ)
      → n ≢ 0
      → ring_window buf cap s n ≡ get_or buf s d ∷ ring_window buf cap ((s + 1) % cap) (n - 1)
  ring_window_pop buf cap s zero h = absurd (h refl)
  ring_window_pop buf cap s (suc n) h =
      ap (λ k. get_or buf s d ∷ ring_window buf cap ((s + 1) % cap) k) (omega arith)

-- A step of less than a full round leads elsewhere.
add-mod-ne : (cap s k : ℕ) → s < cap → suc k < cap → (s + suc k) % cap ≢ s
add-mod-ne cap s k h l = grind arith

module _ {ℓ} {A : Type ℓ} (d : A) where
  -- Writing the place behind a window extends the window by what is written.
  pub ring_window-set :
      (buf : List A) (cap s n i : ℕ) (x : A)
      → cap ≤ length buf
      → s < cap
      → n < cap
      → i ≡ (s + n) % cap
      → ring_window d (set buf i x) cap s (suc n) ≡ ring_window d buf cap s n ++ x ∷ []
  ring_window-set buf cap s zero i x room inside short e =
      let here : i ≡ s = e ∙ rw add-zero (mod-eq_of_lt inside) in
      rw here (ap (λ y. y ∷ []) (get_or-set_self buf s x d (omega arith)))
  ring_window-set buf cap s (suc n) i x room inside short e =
      ap₂ ◌∷◌ (get_or-set_ne buf i s x d (rw e (add-mod-ne cap s n inside short)))
        (ring_window-set buf cap ((s + 1) % cap) n i x room (omega arith) (omega arith) (e ∙ round))
    where
      round : (s + suc n) % cap ≡ ((s + 1) % cap + n) % cap
      round = rw mod-add-mod (ap (λ k. k % cap) (omega arith))
