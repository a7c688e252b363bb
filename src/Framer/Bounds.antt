-- ===== src/Framer/Bounds.antt =====
-- The bounds that the framer keeps: no write outside its array.
use flight_computer_test.Base.{
  ℕ, ◌≤◌, ◌<◌, ◌^◌, ◌≡◌, [], ◌∷◌, Bytes, length, length-set, length-take, take, arith,
}
use flight_computer_test.Framer.{
  NewlineFramer, max_line_length, initialize, discard_current_line, delivered_length, consume_byte,
  consume,
}

pub record IsValid (framer : NewlineFramer) : Type 0 where
  pub array : length framer.line ≡ max_line_length
  pub used : framer.length ≤ max_line_length
  pub counted : framer.overflow_count < 2 ^ 32

pub initialize-IsValid :
    (framer : NewlineFramer) → length framer.line ≡ max_line_length → IsValid (initialize framer)
unfolding initialize
initialize-IsValid framer h = omega arith

pub discard_current_line-IsValid :
    {framer : NewlineFramer} → IsValid framer → IsValid (discard_current_line framer)
unfolding discard_current_line
discard_current_line-IsValid v = omega arith

module _ {ℓ} {S : Type ℓ} (line_callback : Bytes → S → S) where
  pub consume_byte-IsValid :
      {framer : NewlineFramer} (s : S) (byte : ℕ)
      → IsValid framer
      → IsValid (consume_byte line_callback framer s byte).0
  unfolding consume_byte
  consume_byte-IsValid {framer} s byte v = ground (arith, length-set framer.line framer.length byte)

  consume_byte_keeps {κ} :
      (P : S → Type κ)
      → ((line : Bytes) (s : S) → length line ≤ max_line_length → P s → P (line_callback line s))
      → (framer : NewlineFramer) (s : S) (byte : ℕ) → IsValid framer
      → P s
      → P (consume_byte line_callback framer s byte).1
  unfolding consume_byte
  consume_byte_keeps P keep framer s byte v p =
      let n = delivered_length framer in
      ground (
        arith,
        p,
        keep (take n framer.line) s (omega (arith, length-take n framer.line, v.array)) p,
      )

  pub consume-IsValid :
      (framer : NewlineFramer) (s : S) (bytes : Bytes)
      → IsValid framer
      → IsValid (consume line_callback framer s bytes).0
  unfolding consume
  consume-IsValid framer s [] v = v
  consume-IsValid framer s (byte ∷ bytes) v =
      consume-IsValid (consume_byte line_callback framer s byte).0
        (consume_byte line_callback framer s byte).1 bytes (consume_byte-IsValid s byte v)

  -- The callback is given no line longer than the array, so what it keeps for such lines holds.
  pub consume_keeps {κ} :
      (P : S → Type κ)
      → ((line : Bytes) (s : S) → length line ≤ max_line_length → P s → P (line_callback line s))
      → (bytes : Bytes) (framer : NewlineFramer) (s : S) → IsValid framer
      → P s
      → P (consume line_callback framer s bytes).1
  unfolding consume
  consume_keeps P keep [] framer s v p = p
  consume_keeps P keep (byte ∷ bytes) framer s v p =
      consume_keeps P keep bytes _ _ (consume_byte-IsValid s byte v)
        (consume_byte_keeps P keep framer s byte v p)
