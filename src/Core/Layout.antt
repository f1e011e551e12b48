-- ===== src/Core/Layout.antt =====
-- The led layout that libsrc/hyperion/Hyperion.cpp reads: the strings of leds, and the grid.
pub mod Scan
pub mod Strings
pub mod Grid
pub mod Tests
