-- ===== src/Adjust.antt =====
-- The color adjustment of the led values: include/hyperion/ColorAdjustment.h and the classes of
-- libsrc/utils/RgbChannelAdjustment.cpp, libsrc/utils/RgbTransform.cpp and
-- libsrc/hyperion/MultiColorAdjustment.cpp that it is made of.
pub mod Doubles
pub mod Channel
pub mod Transform
pub mod Multi
pub mod Weights
pub mod Bounds
pub mod Leds
pub mod Config
pub mod Tests
