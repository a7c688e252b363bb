-- ===== src/Registry.antt =====
-- firmware/manufacturing_test/components/component_registry.c and .h: the types by which component
-- code and the session speak, and the table of the component tests.
pub mod Lookup
use flight_computer_test.Base.{
  ℕ, Bool, ◌&&◌, Option, none, some, List, [], ◌∷◌, Bytes, length, get_elem?, bytes_equal, leb,
  if◌then◌else◌,
}
use flight_computer_test.Base.Int.{ℤ}
use flight_computer_test.Base.Text.{codes}

-- component_test_process_result_t
pub data ProcessResult : Type 0 where
  running event passed failed : ProcessResult

-- component_test_parameters_t
pub record Parameters : Type 0 where
  pub rgb_colour_present : Bool
  pub red : ℕ
  pub green : ℕ
  pub blue : ℕ

-- component_test_event_kind_t
pub data EventKind : Type 0 where
  message imu_sample barometer_sample sd_card_info failure : EventKind

-- component_test_event_t. A text that may be NULL is an option.
pub record ComponentEvent : Type 0 where
  pub kind : EventKind
  pub name : Option Bytes
  pub acceleration_x : ℤ
  pub acceleration_y : ℤ
  pub acceleration_z : ℤ
  pub gyroscope_x : ℤ
  pub gyroscope_y : ℤ
  pub gyroscope_z : ℤ
  pub pressure_centi_pa : ℤ
  pub temperature_centi_c : ℤ
  pub sector_count : ℕ
  pub test_sector : ℕ
  pub checksum : ℕ
  pub high_capacity : Bool
  pub failure_stage : Option Bytes
  pub failure_reason : Option Bytes
  pub failure_code : ℤ

-- component_test_definition_t. `W` is what the component code and the hardware behind it keep; the
-- function pointers act on it. `event` may be NULL.
pub record Definition (W : Type 0) : Type 0 where
  pub type : Bytes
  pub start : Parameters → W → W
  pub process : W → ProcessResult × W
  pub event : Option (W → ComponentEvent)
  pub stop : W → W

-- The functions that component_registry.c declares extern.
pub record Externs (W : Type 0) : Type 0 where
  pub status_led_red_start : Parameters → W → W
  pub status_led_green_start : Parameters → W → W
  pub status_led_process : W → ProcessResult × W
  pub status_led_stop : W → W
  pub rgb_led_test_start : Parameters → W → W
  pub rgb_led_test_process : W → ProcessResult × W
  pub rgb_led_test_event : W → ComponentEvent
  pub rgb_led_test_stop : W → W
  pub bmi270_test_start : Parameters → W → W
  pub bmi270_test_process : W → ProcessResult × W
  pub bmi270_test_event : W → ComponentEvent
  pub bmi270_test_stop : W → W
  pub bmp388_test_start : Parameters → W → W
  pub bmp388_test_process : W → ProcessResult × W
  pub bmp388_test_event : W → ComponentEvent
  pub bmp388_test_stop : W → W
  pub sd_card_test_start : Parameters → W → W
  pub sd_card_test_process : W → ProcessResult × W
  pub sd_card_test_event : W → ComponentEvent
  pub sd_card_test_stop : W → W

module _ {W : Type 0} where
  -- production_tests
  abbrev pub production_tests : Externs W → List (Definition W)
  production_tests e =
      record {
        type = codes "status_led_red";
        start = e.status_led_red_start;
        process = e.status_led_process;
        event = none;
        stop = e.status_led_stop;
      }
      ∷ record {
        type = codes "status_led_green";
        start = e.status_led_green_start;
        process = e.status_led_process;
        event = none;
        stop = e.status_led_stop;
      }
      ∷ record {
        type = codes "rgb_led";
        start = e.rgb_led_test_start;
        process = e.rgb_led_test_process;
        event = some e.rgb_led_test_event;
        stop = e.rgb_led_test_stop;
      }
      ∷ record {
        type = codes "imu";
        start = e.bmi270_test_start;
        process = e.bmi270_test_process;
        event = some e.bmi270_test_event;
        stop = e.bmi270_test_stop;
      }
      ∷ record {
        type = codes "barometer";
        start = e.bmp388_test_start;
        process = e.bmp388_test_process;
        event = some e.bmp388_test_event;
        stop = e.bmp388_test_stop;
      }
      ∷ record {
        type = codes "sd_card";
        start = e.sd_card_test_start;
        process = e.sd_card_test_process;
        event = some e.sd_card_test_event;
        stop = e.sd_card_test_stop;
      }
      ∷ []

  -- The loop of component_registry_find: strcmp tells whether the texts are the same.
  unfoldable pub find_in : List (Definition W) → Bytes → Option (Definition W)
  find_in [] type = none
  find_in (d ∷ definitions) type =
      if bytes_equal d.type type then some d else find_in definitions type

  -- component_registry_find; NULL for either argument is `none`.
  unfoldable pub component_registry_find :
      Option (List (Definition W)) → Option Bytes → Option (Definition W)
  unfolding find_in
  component_registry_find none type = none
  component_registry_find (some registry) none = none
  component_registry_find (some registry) (some type) = find_in registry type

  -- component_registry_capability_at, on the production registry
  unfoldable pub component_registry_capability_at : Externs W → ℕ → Option Bytes
  component_registry_capability_at e index =
      if leb (length (production_tests e)) index
      then none
      else elim (get_elem? (production_tests e) index) [ none ↦ none | some d ↦ some d.type ]

  -- component_registry_capability_count
  unfoldable pub component_registry_capability_count : Externs W → ℕ
  component_registry_capability_count e = length (production_tests e)
