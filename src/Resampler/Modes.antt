-- ===== src/Resampler/Modes.antt =====
-- The 3D mode of include/utils/VideoMode.h.
use hyperion_ng_beta.Prelude.{eq_bytes, ℕ, ◌==◌, false, List, [], ◌∷◌, map, ◌≡◌, refl, arith}
use hyperion_ng_beta.Resampler.{tolower, video_2d, parse_3d_mode}

-- No byte is an upper-case D in lower case.
tolower-ne-d : (c : ℕ) → (tolower c == b'D') ≡ false
unfolding tolower
tolower-ne-d c = ground arith

no_mode : (text rest : List ℕ) → eq_bytes (map tolower text) (b'3' ∷ b'D' ∷ rest) ≡ false
unfolding eq_bytes
no_mode [] rest = refl
no_mode (a ∷ []) rest = ground arith
no_mode (a ∷ b ∷ text) rest = rw (tolower-ne-d b) (ground arith)

-- Whatever text it is given, parse3DMode returns the 2D mode, since it compares the text in lower
-- case with upper-case names.
pub parse_3d_mode-video_2d : (text : List ℕ) → parse_3d_mode text ≡ video_2d
unfolding parse_3d_mode
parse_3d_mode-video_2d text =
    rw (no_mode text (b'T' ∷ b'A' ∷ b'B' ∷ []), no_mode text (b'S' ∷ b'B' ∷ b'S' ∷ [])) refl
