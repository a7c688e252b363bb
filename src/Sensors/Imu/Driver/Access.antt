-- ===== src/Sensors/Imu/Driver/Access.antt =====
-- bmi270_driver.c: the bus under spi_read and spi_write.
use Prim.Native.Nat.{bit_and, bit_or}
use flight_computer_test.Base.{
  ℕ, suc, sym, subst, ◌+◌, ◌-◌, ◌^◌, ◌<◌, ◌≡◌, ◌≢◌, refl, Bool, true, false, not, ◌||◌, Option,
  none, some, List, ◌∷◌, Bytes, ltb, length, length-take, take, replicate, arith, Bool-cases, inl,
  inr,
}
use flight_computer_test.Spi.{spi_device_select, spi_device_deselect, spi_device_transfer}
use flight_computer_test.SdCard.Driver.Bus.{
  Chip, Event, recorded, selected, refused, released, exchanged,
}
use flight_computer_test.Sensors.Imu.Driver.{
  out_of_bounds, bracketed_transfer, read_result, write_result, spi_read, spi_write,
  transfer_length,
}

-- What an access puts on the bus, from a first byte on: nothing, a selection that the device refuses, or
-- one transfer that fits into the buffers, between a selection and its release.
pub data OneAccess (first : ℕ) (log : List Event) : List Event → Type 0 where
  none_at_all : OneAccess first log log
  refusal : OneAccess first log (released ∷ refused ∷ log)
  transfer :
      (rest : Bytes)
      → length rest < 64
      → OneAccess first log (released ∷ exchanged (first ∷ rest) ∷ selected ∷ log)

-- The length that comes with the bytes to write.
abbrev pub length_of : Option Bytes → ℕ
length_of none = 0
length_of (some bytes) = length bytes

short_enough :
    (absent : Bool) (count : ℕ)
    → (absent || ltb 64 (transfer_length count)) ≡ false
    → count + 1 < 2 ^ 32
    → count < 64
short_enough true count e l = ground (arith, e)
short_enough false count e l = ground (arith, e, l)

module _ {K : Type 0} (chip : Chip K) where
  bracketed_transfer-OneAccess :
      (first : ℕ) (rest : Bytes) (log : List Event) (k : K)
      → length rest < 64
      → OneAccess first log (bracketed_transfer (some (recorded chip)) (first ∷ rest) (log, k)).1.0
  unfolding bracketed_transfer spi_device_select spi_device_deselect spi_device_transfer recorded
  bracketed_transfer-OneAccess first rest log k l = elim (Bool-cases (chip.select k).0) [
    | inl e ↦ rw e (transfer rest l)
    | inr e ↦ rw e refusal
  ]

  read_result-log :
      (count : ℕ) (r : Option Bytes × (List Event × K)) → (read_result count r).2 ≡ r.1
  read_result-log count (none, h) = refl
  read_result-log count (some rx, h) = ground arith

  write_result-log : (r : Option Bytes × (List Event × K)) → (write_result r).1 ≡ r.1
  write_result-log (none, h) = refl
  write_result-log (some rx, h) = refl

  read_result-inside :
      (count : ℕ) (r : Option Bytes × (List Event × K))
      → count < 64
      → (read_result count r).0 ≢ out_of_bounds
  read_result-inside count (none, h) l e = ground (arith, e)
  read_result-inside count (some rx, h) l e = ground (arith, e, l)

  write_result-inside : (r : Option Bytes × (List Event × K)) → (write_result r).0 ≢ out_of_bounds
  write_result-inside (none, h) e = ground (arith, e)
  write_result-inside (some rx, h) e = ground (arith, e)

  read_transfer-OneAccess :
      (first size count : ℕ) (tail : Bytes) (log : List Event) (k : K)
      → size ≡ suc count
      → count < 64
      → let (result, bytes, h) =
          read_result count
            (bracketed_transfer (some (recorded chip)) (take size (first ∷ tail)) (log, k)) in
        OneAccess first log h.0 × (result ≢ out_of_bounds)
  read_transfer-OneAccess first size count tail log k e l =
      let r = bracketed_transfer (some (recorded chip)) (first ∷ take count tail) (log, k) in
      rw e (
        subst (λ h. OneAccess first log h.0) (sym (read_result-log count r))
            (bracketed_transfer-OneAccess first (take count tail) log k
              (omega (arith, length-take count tail, l))),
        read_result-inside count r l,
      )

  write_result-OneAccess :
      (first size : ℕ) (bytes : Bytes) (log : List Event) (k : K)
      → size ≡ suc (length bytes)
      → length bytes < 64
      → let (result, h) =
          write_result
            (bracketed_transfer (some (recorded chip)) (take size (first ∷ bytes)) (log, k)) in
        OneAccess first log h.0 × (result ≢ out_of_bounds)
  write_result-OneAccess first size bytes log k e l =
      let rest = take (length bytes) bytes in
      let r = bracketed_transfer (some (recorded chip)) (first ∷ rest) (log, k) in
      rw e (
        subst (λ h. OneAccess first log h.0) (sym (write_result-log r))
            (bracketed_transfer-OneAccess first rest log k
              (omega (arith, length-take (length bytes) bytes, l))),
        write_result-inside r,
      )

  module _ (mask : ℕ) where
    -- A read of any length below 2^32 - 1.
    spi_read-OneAccess :
        (register count : ℕ) (has_data : Bool) (log : List Event) (k : K)
        → count + 1 < 2 ^ 32
        → let (result, bytes, h) =
            spi_read (some (recorded chip)) mask register has_data count (log, k) in
          OneAccess (bit_or register mask) log h.0 × (result ≢ out_of_bounds)
    unfolding spi_read
    spi_read-OneAccess register count has_data log k l =
        elim (Bool-cases (not has_data || ltb 64 (transfer_length count))) [
          | inl e ↦ rw e (none_at_all, λ b. ground (arith, b))
          | inr e ↦ rw e (
              read_transfer-OneAccess (bit_or register mask) (transfer_length count) count
                (replicate 63 0) log k (omega (arith, l)) (short_enough (not has_data) count e l))
        ]

    spi_write-OneAccess :
        (register : ℕ) (source : Option Bytes) (log : List Event) (k : K)
        → length_of source + 1 < 2 ^ 32
        → let (result, h) = spi_write (some (recorded chip)) mask register source (log, k) in
          OneAccess (bit_and register (255 - mask)) log h.0 × (result ≢ out_of_bounds)
    unfolding spi_write
    spi_write-OneAccess register none log k l = (none_at_all, λ b. ground (arith, b))
    spi_write-OneAccess register (some bytes) log k l =
        let first = bit_and register (255 - mask) in
        let size = transfer_length (length bytes) in
        elim (Bool-cases (ltb 64 size)) [
          | inl e ↦ rw e (none_at_all, λ b. ground (arith, b))
          | inr e ↦
              let inside = short_enough false (length bytes) e l in
              let fits : ltb (length bytes) 64 ≡ true = ground (arith, inside) in
              rw (e, fits) (write_result-OneAccess first size bytes log k (omega (arith, l)) inside)
        ]

    -- An access of the IMU's registers of a length below 2^32 - 1: nothing happens on the bus, or a
    -- selection is refused and released, or one transfer of at most 64 bytes stands between a selection
    -- and the release. Its first byte is the register, with the bits of the mask in a read and without
    -- them in a write, and no copy goes outside
    -- of the buffers.
    pub register_access-OneAccess :
        (register count : ℕ) (has_data : Bool) (source : Option Bytes) (log : List Event) (k : K)
        → count + 1 < 2 ^ 32
        → length_of source + 1 < 2 ^ 32
        → let (read, bytes, h) =
            spi_read (some (recorded chip)) mask register has_data count (log, k) in
          let (write, h') = spi_write (some (recorded chip)) mask register source (log, k) in
          OneAccess (bit_or register mask) log h.0
          × OneAccess (bit_and register (255 - mask)) log h'.0
          × (read ≢ out_of_bounds)
          × (write ≢ out_of_bounds)
    register_access-OneAccess register count has_data source log k l m =
        let (reads, inside) = spi_read-OneAccess register count has_data log k l in
        let (writes, inside') = spi_write-OneAccess register source log k m in
        (reads, writes, inside, inside')
