-- ===== src/SdCard.antt =====
-- The SD card: its CSD register (firmware/manufacturing_test/drivers/sd_card/sd_card_csd.c) and its
-- component test (firmware/manufacturing_test/components/sd_card/sd_card_test.c).
pub mod Csd
pub mod Component
pub mod Driver
pub mod Whole
