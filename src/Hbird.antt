-- ===== src/Hbird.antt =====
-- hbird-sdk/SoC/hbird/Common: the drivers of the older HummingBird SoC, whose UART and GPIO have other
-- registers than those of hbirdv2.
pub mod Uart
pub mod Gpio
