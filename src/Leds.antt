-- ===== src/Leds.antt =====
-- The led layout and the mapping of a picture to the leds: include/hyperion/LedString.h,
-- include/hyperion/ImageToLedsMap.h, libsrc/hyperion/ImageToLedsMap.cpp and
-- libsrc/hyperion/ImageProcessor.cpp.
pub mod Led
pub mod ImageToLedsMap
pub mod Area
pub mod Mean
pub mod ImageProcessor
pub mod BorderFits
pub mod Readable
pub mod Prepared
pub mod Safe
pub mod Tests
