-- ===== src/Response/Events.antt =====
-- Each event of a component test makes a response.
use flight_computer_test.Base.{
  ℕ, ◌+◌, ◌^◌, ◌<◌, ◌≡◌, refl, subst, sym, Bool, true, false, Option, some, [], ◌∷◌, ◌++◌, Bytes,
  memchr, arith, if◌then◌else◌,
}
use flight_computer_test.Base.Text.{codes}
use flight_computer_test.Base.Decimal.{decimal, decimal-digits, length-decimal}
use flight_computer_test.Base.Int.{ℤ, pos, negsuc, signed_decimal}
use flight_computer_test.Registry.{
  ComponentEvent, EventKind, message, imu_sample, barometer_sample, sd_card_info, failure,
}
use flight_computer_test.Response.{
  event_head, imu_text, barometer_text, sd_card_text, failure_text, event_data, format_uint64,
  formatted, json_protocol_build_test_event,
}
use flight_computer_test.Response.Clean.{
  Prints, ◌⊕◌, Prints-le, Prints-decimal, Prints-digits, literal,
}
use flight_computer_test.Response.Fits.{Builds, builds, formatted-Builds, Builds-bind}
use flight_computer_test.Response.Uint64.{format_uint64-decimal}

-- The range of an int32_t.
abbrev pub IsInt32 : ℤ → Type 0
IsInt32 (pos n) = n < 2 ^ 31
IsInt32 (negsuc n) = n < 2 ^ 31

-- A text pointer that is not NULL and points to a short text on one line.
pub data Tells (found : Option Bytes) : Type 0 where
  tells : (text : Bytes) → found ≡ some text → Prints 48 text → Tells found

-- What the components fill in: numbers in the range of their C types, a name, and the stage and the
-- reason of a failure.
pub record IsReportable (event : ComponentEvent) : Type 0 where
  pub name : Tells event.name
  pub acceleration :
      IsInt32 event.acceleration_x × IsInt32 event.acceleration_y × IsInt32 event.acceleration_z
  pub gyroscope : IsInt32 event.gyroscope_x × IsInt32 event.gyroscope_y × IsInt32 event.gyroscope_z
  pub pressure : IsInt32 event.pressure_centi_pa
  pub temperature : IsInt32 event.temperature_centi_c
  pub sector_count : event.sector_count < 2 ^ 64
  pub test_sector : event.test_sector < 2 ^ 32
  pub checksum : event.checksum < 2 ^ 32
  pub failure_texts : event.kind ≡ failure → Tells event.failure_stage × Tells event.failure_reason
  pub failure_code : IsInt32 event.failure_code

signed_decimal-Prints : (n : ℤ) → IsInt32 n → Prints 11 (signed_decimal n)
unfolding signed_decimal memchr
signed_decimal-Prints (pos n) l = Prints-le (omega arith) (Prints-decimal n (omega arith))
signed_decimal-Prints (negsuc n) l =
    literal (b'-' ∷ []) refl refl ⊕ Prints-decimal (n + 1) (omega arith)

format_uint64-Prints : (n : ℕ) → n < 2 ^ 64 → Prints 20 (format_uint64 n)
format_uint64-Prints n l =
    subst (Prints 20) (sym (format_uint64-decimal n l))
      (Prints-le (length-decimal 19 n (omega arith)) (Prints-digits (decimal n) (decimal-digits n)))

imu_text-Prints : (event : ComponentEvent) → IsReportable event → Prints 256 (imu_text event)
unfolding imu_text memchr
imu_text-Prints event v = Prints-le (omega arith) (
    literal (codes ",\"data\":{\"acceleration_raw\":{\"x\":") refl refl
    ⊕ signed_decimal-Prints event.acceleration_x v.acceleration.0
    ⊕ literal (codes ",\"y\":") refl refl
    ⊕ signed_decimal-Prints event.acceleration_y v.acceleration.1
    ⊕ literal (codes ",\"z\":") refl refl
    ⊕ signed_decimal-Prints event.acceleration_z v.acceleration.2
    ⊕ literal (codes "},\"gyroscope_raw\":{\"x\":") refl refl
    ⊕ signed_decimal-Prints event.gyroscope_x v.gyroscope.0
    ⊕ literal (codes ",\"y\":") refl refl
    ⊕ signed_decimal-Prints event.gyroscope_y v.gyroscope.1
    ⊕ literal (codes ",\"z\":") refl refl
    ⊕ signed_decimal-Prints event.gyroscope_z v.gyroscope.2
    ⊕ literal (codes "}}}") refl refl)

barometer_text-Prints :
    (event : ComponentEvent) → IsReportable event → Prints 256 (barometer_text event)
unfolding barometer_text memchr
barometer_text-Prints event v = Prints-le (omega arith) (
    literal (codes ",\"data\":{\"pressure_centi_pa\":") refl refl
    ⊕ signed_decimal-Prints event.pressure_centi_pa v.pressure
    ⊕ literal (codes ",\"temperature_centi_c\":") refl refl
    ⊕ signed_decimal-Prints event.temperature_centi_c v.temperature
    ⊕ literal (codes "}}") refl refl)

card_type-Prints : (high : Bool) → Prints 9 (if high then codes "SDHC/SDXC" else codes "SDSC")
unfolding memchr
card_type-Prints true = literal (codes "SDHC/SDXC") refl refl
card_type-Prints false = Prints-le (omega arith) (literal (codes "SDSC") refl refl)

sd_card_text-Prints :
    (event : ComponentEvent) → IsReportable event → Prints 256 (sd_card_text event)
unfolding sd_card_text memchr
sd_card_text-Prints event v = Prints-le (omega arith) (
    literal (codes ",\"data\":{\"card_type\":\"") refl refl
    ⊕ card_type-Prints event.high_capacity
    ⊕ literal (codes "\",\"sector_count\":") refl refl
    ⊕ format_uint64-Prints event.sector_count v.sector_count
    ⊕ literal (codes ",\"test_sector\":") refl refl
    ⊕ Prints-decimal event.test_sector v.test_sector
    ⊕ literal (codes ",\"checksum\":") refl refl
    ⊕ Prints-decimal event.checksum v.checksum
    ⊕ literal (codes "}}") refl refl)

failure_text-Prints :
    (stage reason : Bytes) (event : ComponentEvent)
    → IsReportable event
    → Prints 48 stage
    → Prints 48 reason
    → Prints 256 (failure_text stage reason event)
unfolding failure_text memchr
failure_text-Prints stage reason event v ps pr = Prints-le (omega arith) (
    literal (codes ",\"data\":{\"stage\":\"") refl refl
    ⊕ ps
    ⊕ literal (codes "\",\"reason\":\"") refl refl
    ⊕ pr
    ⊕ literal (codes "\",\"code\":") refl refl
    ⊕ signed_decimal-Prints event.failure_code v.failure_code
    ⊕ literal (codes "}}") refl refl)

event_data-Builds :
    (kind : EventKind) (event : ComponentEvent)
    → event.kind ≡ kind
    → IsReportable event
    → Builds 256 (event_data kind event)
unfolding event_data memchr
event_data-Builds message event e v =
    builds (codes "}") refl (Prints-le (omega arith) (literal (codes "}") refl refl))
event_data-Builds imu_sample event e v = builds (imu_text event) refl (imu_text-Prints event v)
event_data-Builds barometer_sample event e v =
    builds (barometer_text event) refl (barometer_text-Prints event v)
event_data-Builds sd_card_info event e v =
    builds (sd_card_text event) refl (sd_card_text-Prints event v)
event_data-Builds failure event e v =
    let (stage_told, reason_told) = v.failure_texts e in
    elim stage_told [
      | tells stage es ps ↦ elim reason_told [
        | tells reason er pr ↦
            builds (failure_text stage reason event) (ground arith)
              (failure_text-Prints stage reason event v ps pr)
      ]
    ]

event_head-Prints :
    (command_id : ℕ) (test_type name : Bytes)
    → command_id < 2 ^ 32
    → Prints 32 test_type
    → Prints 48 name
    → Prints 256 (event_head command_id test_type name)
unfolding memchr
event_head-Prints command_id test_type name l pt pn = Prints-le (omega arith) (
    literal (codes "{\"protocol_version\":1,\"type\":\"TEST_EVENT\",\"command_id\":") refl refl
    ⊕ Prints-decimal command_id l
    ⊕ literal (codes ",\"test_type\":\"") refl refl
    ⊕ pt
    ⊕ literal (codes "\",\"event\":\"") refl refl
    ⊕ pn
    ⊕ literal (codes "\"") refl refl)

-- In a buffer of more than 512 bytes, an event of any kind that holds what its component fills in, of
-- a test with a printable type and a 32-bit command id, makes a response of at most 512 bytes on one
-- line.
pub json_protocol_build_test_event-Builds :
    (command_id : ℕ) (test_type : Bytes) (event : ComponentEvent) (capacity : ℕ)
    → command_id < 2 ^ 32
    → 512 < capacity
    → Prints 32 test_type
    → IsReportable event
    → Builds 512 (json_protocol_build_test_event command_id (some test_type) (some event) capacity)
unfolding json_protocol_build_test_event
json_protocol_build_test_event-Builds command_id test_type event capacity l c pt v = elim v.name [
  | tells name e pn ↦ rw e (
      Builds-bind (event_data event.kind event)
        (λ rest. formatted capacity (event_head command_id test_type name ++ rest))
        (event_data-Builds event.kind event refl v)
        (λ rest pr.
          formatted-Builds capacity _ c (event_head-Prints command_id test_type name l pt pn ⊕ pr)))
]
