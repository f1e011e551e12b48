-- ===== src/Color.antt =====
-- include/utils/ColorRgb.h: one byte for each channel.
use hyperion_ng_beta.Prelude.{ℕ, ◌<◌}

pub record ColorRgb : Type 0 where
  pub red : ℕ
  pub green : ℕ
  pub blue : ℕ

-- Every channel holds a byte.
abbrev pub IsByteColor : ColorRgb → Type 0
IsByteColor c = (c.red < 256) × (c.green < 256) × (c.blue < 256)

abbrev pub black : ColorRgb
black = record { red = 0; green = 0; blue = 0 }
