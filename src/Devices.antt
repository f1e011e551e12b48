-- ===== src/Devices.antt =====
-- The led devices of libsrc/leddevice: the bytes that they send.
pub mod Apa102
pub mod Packets
pub mod Tpm2net
pub mod UdpE131
pub mod Rgbw
pub mod Sk6812Spi
pub mod Tests
