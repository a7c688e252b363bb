-- ===== src/Lib.antt =====
-- The manufacturing test firmware (firmware/manufacturing_test): a host speaks to the board over USB
-- CDC in lines of JSON, starts component tests by name, and gets one line for each request and for
-- each event of the active test.
--
-- The parts and their files:
-- - Framer (protocol/newline_framer.c): bytes in, lines out, oversized lines left out and counted.
--   `consume` is newline_framer_consume, its callback a function on a state of its own.
-- - LineQueues and Transport (protocol/usb_cdc_transport.c): the queues of received lines and of lines to
--   transmit; the raw ring that the receive interrupt fills, and the whole. The statics of the file are
--   the fields of `Transport`, each function is a definition of the same name, interrupts are steps of
--   their own.
-- - Request (protocol/json_protocol.c): the walk over the tokens of a request line;
--   Request.Rgb has its parameters.
-- - Response (protocol/json_response_builder.c, protocol/json_component_events.c): the texts of the
--   responses.
-- - Registry (components/component_registry.c): the types by which components and session speak, and
--   the table of tests. `W` is whatever the component code and the hardware keep.
-- - Runner (application/component_test_runner.c): at most one active test.
-- - Session (application/session_protocol.c): requests and the active test meet the transport;
--   Session.Metadata (application/session_metadata.c) has the texts that identify the device.
-- - Spi (hardware_abstraction/spi_device.c): what the SPI device checks before the board's functions run.
-- - SdCard: sd_card_parse_csd (drivers/sd_card/sd_card_csd.c; Csd.Fields reads the register as one number)
--   and the state machine of the SD card test (components/sd_card/sd_card_test.c) over the interface
--   `Driver` of the driver's operations.
-- - SdCard.Driver (drivers/sd_card/sd_card_driver.c): the driver itself. The file is a state with errors:
--   the statics, the device and the outcome of each function; Exchange has commands and responses, Start
--   the initialization, Blocks the reads, writes and erasure. Promise and what it uses speak about a
--   device that records its calls (Bus: `recorded`, over any `Chip`), ReadBack about one that also keeps
--   what the card answers (Heard: `overheard`), Duration about the time.
-- - SdCard.Whole: the SD card test on that driver, in place of the interface.
-- - Sensors: the component tests of barometer and IMU (components/bmp388/bmp388_test.c,
--   components/bmi270/bmi270_test.c) over interfaces of their drivers; Sensors.Barometer.Driver and
--   Sensors.Imu.Driver are those drivers (drivers/bmp388/bmp388_driver.c, drivers/bmi270/bmi270_driver.c),
--   and the barometer's fills its interface with a promise (Reports).
-- - Base: lists and numbers that the parts share. Examples: the theorems at concrete inputs.
--
-- The main loop calls usb_cdc_transport_process, which moves bytes from the ring through the framer
-- into the received lines and starts the next transmission, and session_protocol_process, which
-- answers received lines and gives the active test its turn. Transport.Safety has these pieces and the
-- interrupts as a step relation; Session works on the two line queues.
--
-- Bounds and fuel. Counters of 32 bits wrap, written `% 2 ^ 32`; indices wrap modulo the size of their
-- array. The receive loop has 512 rounds, and at most 511 bytes wait; the loops of the parser have one
-- round for each token; the session's loop has three rounds, and at most two lines wait. A run that
-- needs more has no result, and each loop has a theorem that it does have one. The model of the receive
-- loop takes no interrupt inside; the step relation takes them between any two rounds.
-- The waiting loops of the SD card driver run on fuel as well: they end by the tick counter, and the
-- hypothesis `Timed` says that each exchange of a byte takes a share of a millisecond, at least a
-- nanosecond; a fuel of more such passes than the longest wait holds is enough.
--
-- Parameters. The tokenizer jsmn is vendored: `JsmnParse` gives the tokens of a line, and the hypothesis
-- `TokenizesInLine` says that they lie inside the line. Bosch's libraries for the sensors are submodules:
-- `BoschLibrary` with the board's `BarometerI2c`, and `ImuLibrary`; `IsTyped` says which C types their
-- results have. The answers of the USB library to a transmission
-- are `UsbAnswers`. Component code is the record `Externs` where the session calls it. The drivers of the
-- component tests are the records `Driver`, with the tick counter and the card switch, `BarometerDriver`
-- and `ImuDriver`. The device's texts are `SessionMetadata`, printable and short where
-- a theorem says so. The SPI device's functions and the tick counter are parameters of the SD card driver;
-- its block buffers are values that its functions take and return.
--
-- Not modelled: the USB line coding and descriptors, the device port, clock, startup and HAL glue, the
-- board's SPI and I2C functions, the LED tests, the unit tests, and
-- the Python program on the other end (board_tester). Null pointers that no caller passes have no case.
pub mod Base
pub mod Framer
pub mod LineQueues
pub mod Transport
pub mod Registry
pub mod Runner
pub mod Request
pub mod Response
pub mod Session
pub mod Spi
pub mod SdCard
pub mod Sensors
pub mod Examples
