-- ===== src/Boblight/Text.antt =====
-- The text that a client of libsrc/boblightserver/BoblightClientConnection.cpp sends: lines, words and
-- numbers. Texts are lists of the codes of their characters.
use hyperion_ng_beta.Prelude.{
  ℕ, zero, suc, ℤ, pos, negsuc, ◌+◌, ◌-◌, ◌*◌, ◌==◌, ltb, leb, min_ℤ, max_ℤ, Bool, ◌&&◌, ◌||◌,
  if◌then◌else◌, split_at, List, [], ◌∷◌, map, Option, none, some, ◌>>=◌, length, take, drop,
}
use hyperion_ng_beta.Color.{ColorRgb}

-- QString::toUInt and toInt, and int(255 * x) of what QString::toFloat reads; none where they report
-- that the text is no number.
pub record Numerals : Type 0 where
  pub to_uint : List ℕ → Option ℕ
  pub to_int : List ℕ → Option ℤ
  pub times_255 : List ℕ → Option ℤ

-- QByteArray::indexOf, plus one; 0 if the byte is not there.
unfoldable pub index_of_next : ℕ → List ℕ → ℕ
index_of_next c [] = 0
index_of_next c (x ∷ xs) =
    let rest = index_of_next c xs in if x == c then 1 else if rest == 0 then 0 else rest + 1

-- QChar::isSpace for Latin-1.
unfoldable pub is_space : ℕ → Bool
is_space c = (leb 9 c && leb c 13) || c == 32 || c == 133 || c == 160

unfoldable pub trim_left : List ℕ → List ℕ
trim_left [] = []
trim_left (c ∷ cs) = let rest = trim_left cs in if is_space c then rest else c ∷ cs

unfoldable pub trim_right : List ℕ → List ℕ
trim_right [] = []
trim_right (c ∷ cs) =
    let rest = trim_right cs in if is_space c && length rest == 0 then [] else c ∷ rest

unfoldable pub trimmed : List ℕ → List ℕ
trimmed s = trim_right (trim_left s)

-- QString::split at spaces, without the empty parts.
unfoldable pub skip_empty : List (List ℕ) → List (List ℕ)
skip_empty [] = []
skip_empty (part ∷ parts) =
    let rest = skip_empty parts in if length part == 0 then rest else part ∷ rest

unfoldable pub split : List ℕ → List (List ℕ)
split s = skip_empty (split_at 32 s)

unfoldable pub replace_comma : List ℕ → List ℕ
replace_comma s = map (λ c. if c == b',' then b'.' else c) s

-- uint8_t(qMax(0, qMin(255, x))).
unfoldable pub to_channel : ℤ → ℕ
to_channel x = elim (max_ℤ (pos 0) (min_ℤ (pos 255) x)) [ pos n ↦ n | negsuc n ↦ 0 ]

unfoldable pub read_color : Numerals → List ℕ → List ℕ → List ℕ → Option ColorRgb
read_color n r g b = do
  red ← n.times_255 (replace_comma r)
  green ← n.times_255 (replace_comma g)
  blue ← n.times_255 (replace_comma b)
  some (record { red = to_channel red; green = to_channel green; blue = to_channel blue })

-- The loop of `readData`: the messages in their order, and what stays in the buffer. `none` is a loop
-- that needs more rounds. Handling a message does not touch the buffer.
unfoldable pub read_messages : ℕ → List ℕ → Option (List (List ℕ) × List ℕ)
read_messages zero buffer = if index_of_next b'\n' buffer == 0 then some ([], buffer) else none
read_messages (suc rounds) buffer =
    let bytes = index_of_next b'\n' buffer in
    let left = drop bytes buffer in
    let kept = if ltb (100 * 1024) (length left) then [] else left in
    let rest = read_messages rounds kept in
    if bytes == 0
    then some ([], buffer)
    else (do r ← rest; some (take (bytes - 1) buffer ∷ r.0, r.1))
