-- ===== src/Response/Uint64.antt =====
-- format_uint64 writes what %llu writes.
use flight_computer_test.Base.{
  ℕ, zero, suc, ◌+◌, ◌-◌, ◌/◌, ◌%◌, ◌^◌, ◌<◌, ◌≡◌, refl, sym, ap, ◌∙◌, [], ◌∷◌, ◌++◌, Bytes, length,
  get_or, take, take_all, arith,
}
use native.Mathlib.Nat.{pow-suc}
use flight_computer_test.Base.Decimal.{decimal, digits_from}
use flight_computer_test.Response.{reversed_digits, copy_reversed, format_uint64, uint64_digits}

abbrev reverse_onto : Bytes → Bytes → Bytes
reverse_onto [] rest = rest
reverse_onto (x ∷ xs) rest = reverse_onto xs (x ∷ rest)

reverse_onto-snoc :
    (xs rest : Bytes) (x : ℕ) → reverse_onto (xs ++ x ∷ []) rest ≡ x ∷ reverse_onto xs rest
reverse_onto-snoc [] rest x = refl
reverse_onto-snoc (y ∷ xs) rest x = reverse_onto-snoc xs (y ∷ rest) x

take-get_or :
    (xs : Bytes) (n d : ℕ) → n < length xs → take (suc n) xs ≡ take n xs ++ get_or xs n d ∷ []
take-get_or [] n d l = elim l [ ]
take-get_or (x ∷ xs) zero d l = refl
take-get_or (x ∷ xs) (suc n) d l = ap (◌∷◌ x) (take-get_or xs n d (omega arith))

copy_reversed-reverse :
    (reversed : Bytes) (left index : ℕ)
    → left + index ≡ length reversed
    → copy_reversed reversed left index ≡ reverse_onto (take left reversed) []
unfolding copy_reversed
copy_reversed-reverse reversed zero index e = refl
copy_reversed-reverse reversed (suc left) index e =
    let place : length reversed - index - 1 ≡ left = omega arith in
    ap (λ k. get_or reversed k 0 ∷ copy_reversed reversed left (index + 1)) place
    ∙ ap (◌∷◌ (get_or reversed left 0))
        (copy_reversed-reverse reversed left (index + 1) (omega arith))
    ∙ sym (
        ap (λ xs. reverse_onto xs []) (take-get_or reversed left 0 (omega arith))
        ∙ reverse_onto-snoc (take left reversed) [] (get_or reversed left 0))

-- With enough room for the digits, the two ways to write them meet.
digits_from-reversed :
    (fuel room value : ℕ) (rest : Bytes)
    → value < fuel
    → value < 10 ^ suc room
    → digits_from fuel value rest ≡ reverse_onto (reversed_digits (suc room) value) rest
unfolding digits_from reversed_digits
digits_from-reversed zero room value rest l r = absurd (omega arith)
digits_from-reversed (suc fuel) zero value rest l r = ground arith
digits_from-reversed (suc fuel) (suc room) value rest l r = ground (
  arith,
  digits_from-reversed fuel room (value / 10) ((b'0' + value % 10) ∷ rest),
  pow-suc 10 (suc room),
)

-- format_uint64 writes the decimal digits of a 64-bit value.
pub format_uint64-decimal : (value : ℕ) → value < 2 ^ 64 → format_uint64 value ≡ decimal value
unfolding format_uint64 decimal
format_uint64-decimal value l =
    copy_reversed-reverse (reversed_digits uint64_digits value) _ 0 (omega arith)
    ∙ ap (λ xs. reverse_onto xs []) (take_all _ (reversed_digits uint64_digits value) (omega arith))
    ∙ sym (digits_from-reversed (suc value) 19 value [] (omega arith) (omega arith))
