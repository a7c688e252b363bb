-- ===== src/Response/Clean.antt =====
-- What a text of the protocol is: so long at most, and on one line.
use flight_computer_test.Base.{
  ℕ, ◌+◌, ◌^◌, ◌≤◌, ◌<◌, ◌≡◌, refl, false, [], ◌∷◌, ◌++◌, Bytes, length, length-append, memchr, All,
  arith,
}
use flight_computer_test.Base.Decimal.{decimal, IsDigit, decimal-digits, length-decimal}

-- A text of at most `n` bytes without a line break.
pub record Prints (n : ℕ) (text : Bytes) : Type 0 where
  pub short : length text ≤ n
  pub no_newline : memchr text b'\n' ≡ false
  pub no_return : memchr text b'\r' ≡ false

memchr-append :
    (a b : Bytes) (byte : ℕ)
    → memchr a byte ≡ false
    → memchr b byte ≡ false
    → memchr (a ++ b) byte ≡ false
unfolding memchr
memchr-append [] b byte ha hb = hb
memchr-append (x ∷ xs) b byte ha hb = ground (arith, memchr-append xs b byte, ha, hb)

infixl 5 ◌⊕◌
pub ◌⊕◌ : {n m : ℕ} {a b : Bytes} → Prints n a → Prints m b → Prints (n + m) (a ++ b)
◌⊕◌ {n} {m} {a} {b} ha hb = record {
  short = omega (arith, length-append a b, ha.short, hb.short);
  no_newline = memchr-append a b b'\n' ha.no_newline hb.no_newline;
  no_return = memchr-append a b b'\r' ha.no_return hb.no_return;
}

pub Prints-le : {n m : ℕ} {a : Bytes} → n ≤ m → Prints n a → Prints m a
Prints-le l h = record {
  short = omega (arith, h.short);
  no_newline = h.no_newline;
  no_return = h.no_return;
}

digits-memchr :
    (text : Bytes) (byte : ℕ) → byte < b'0' → All IsDigit text → memchr text byte ≡ false
unfolding memchr
digits-memchr [] byte l h = refl
digits-memchr (x ∷ xs) byte l h = ground (arith, digits-memchr xs byte l h.1, h.0)

pub Prints-digits : (text : Bytes) → All IsDigit text → Prints (length text) text
Prints-digits text h = record {
  short = omega arith;
  no_newline = digits-memchr text b'\n' (omega arith) h;
  no_return = digits-memchr text b'\r' (omega arith) h;
}

-- A 32-bit number takes at most ten digits.
pub Prints-decimal : (n : ℕ) → n < 2 ^ 32 → Prints 10 (decimal n)
Prints-decimal n h =
    Prints-le (length-decimal 9 n (omega arith)) (Prints-digits (decimal n) (decimal-digits n))

-- A literal: its bytes are there to look at.
pub literal :
    (text : Bytes)
    → memchr text b'\n' ≡ false
    → memchr text b'\r' ≡ false
    → Prints (length text) text
literal text a b = record { short = omega arith; no_newline = a; no_return = b }
