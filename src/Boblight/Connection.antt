-- ===== src/Boblight/Connection.antt =====
-- The connection of libsrc/boblightserver/BoblightClientConnection.cpp, which holds the core that it
-- sends its colors to, and what it does on each message.
use hyperion_ng_beta.Prelude.{
  ℕ, ℤ, pos, negsuc, ◌+◌, ◌-◌, ◌==◌, ltb, ltb_ℤ, eqb_ℤ, Bool, true, not, ◌&&◌, if◌then◌else◌, List,
  [], ◌∷◌, ◌++◌, Option, none, some, ◌>>=◌, length, set, codes, eq_bytes,
}
use hyperion_ng_beta.Color.{ColorRgb}
use hyperion_ng_beta.Components.{comp_invalid}
use hyperion_ng_beta.Muxer.{lowest_priority}
use hyperion_ng_beta.Adjust.Doubles.{Doubles}
use hyperion_ng_beta.Leds.Led.{Fractions, Led}
use hyperion_ng_beta.Core.{Hyperion, clear, set_colors}
use hyperion_ng_beta.Boblight.Text.{
  Numerals, trimmed, split, read_color, replace_comma, read_messages,
}

-- The lines that are sent to the client. The last has the number of the led and what
-- getScanParameters reads.
pub data Reply (f : Fractions) : Type 0 where
  hello ping version : Reply f
  lights : ℕ → Reply f
  light : ℕ → Led f → Reply f

-- The times that a call of the core reads.
pub record Times : Type 0 where
  pub now : ℤ
  pub now_update : ℤ
  pub later : ℤ

pub record Connection (d : Doubles) (f : Fractions) : Type 0 where
  pub hyperion : Hyperion d f
  pub receive_buffer : List ℕ
  pub priority : ℤ
  pub led_colors : List ColorRgb
  -- Whether the decimal point of the locale is a dot.
  pub locale_dot : Bool
  pub sent : List (Reply f)

module _ (d : Doubles) (f : Fractions) where
  unfoldable pub send : List (Reply f) → Connection d f → Connection d f
  send replies s = record s { sent = s.sent ++ replies }

  unfoldable pub light_replies : ℕ → List (Led f) → List (Reply f)
  light_replies i [] = []
  light_replies i (l ∷ ls) = light i l ∷ light_replies (i + 1) ls

  unfoldable pub send_light_message : Connection d f → Connection d f
  send_light_message s =
      send (lights (length s.hyperion.led_string) ∷ light_replies 0 s.hyperion.led_string) s

  -- The component stands where setColors takes clearEffects, so that it is true.
  unfoldable pub send_colors : Times → Connection d f → Option (Connection d f)
  send_colors t s =
      if ltb_ℤ s.priority lowest_priority
      then (do
        h ←
            set_colors d f t.now t.now_update t.later s.priority s.led_colors (negsuc 0) true
              comp_invalid s.hyperion
        some (record s { hyperion = h }))
      else some s

  unfoldable pub clear_channel : Times → Connection d f → Option (Connection d f)
  clear_channel t s =
      if ltb_ℤ s.priority lowest_priority
      then (do h ← clear d f t.now t.later s.priority s.hyperion; some (record s { hyperion = h }))
      else some s

  unfoldable pub socket_closed : Times → Connection d f → Option (Connection d f)
  socket_closed t s =
      if ltb_ℤ s.priority lowest_priority
      then (do u ← clear_channel t s; some (record u { priority = pos 255 }))
      else some s

  unfoldable pub set_priority : Times → ℤ → Connection d f → Option (Connection d f)
  set_priority t p s =
      if eqb_ℤ p s.priority
      then some s
      else (do u ← clear_channel t s; some (record u { priority = p }))

  -- A failed conversion of red changes the locale and is done again; it does not read the locale.
  unfoldable pub retry_red : Option ℤ → Connection d f → Connection d f
  retry_red (some x) s = s
  retry_red none s = record s { locale_dot = not s.locale_dot }

  unfoldable pub set_rgb : Times → ℕ → ColorRgb → Connection d f → Option (Connection d f)
  set_rgb t i color s =
      let u : Connection d f = record s { led_colors = set s.led_colors i color } in
      if i == length s.led_colors - 1 then send_colors t u else some u

  unfoldable pub set_color_of :
      Option ColorRgb → Times → ℕ → Connection d f → Option (Connection d f)
  set_color_of none t i s = some s
  set_color_of (some color) t i s = set_rgb t i color s

  unfoldable pub set_light :
      Numerals → Times → ℕ → List (List ℕ) → Connection d f → Option (Connection d f)
  set_light n t i (kind ∷ r ∷ g ∷ b ∷ []) s =
      if eq_bytes kind (codes "rgb")
      then set_color_of (read_color n r g b) t i (retry_red (n.times_255 (replace_comma r)) s)
      else some s
  set_light n t i parts s = some s

  unfoldable pub handle_get : List (List ℕ) → Connection d f → Connection d f
  handle_get [] s = s
  handle_get (what ∷ parts) s =
      if eq_bytes what (codes "version")
      then send (version ∷ []) s
      else if eq_bytes what (codes "lights")
      then send_light_message s
      else s

  -- The parts behind `set`, of which there are at least two.
  unfoldable pub handle_set :
      Numerals → Times → List (List ℕ) → Connection d f → Option (Connection d f)
  handle_set n t (what ∷ number ∷ parts) s =
      if ltb 0 (length parts) && eq_bytes what (codes "light")
      then elim (n.to_uint number) [
        | none ↦ some s
        | some i ↦ if ltb i (length s.led_colors) then set_light n t i parts s else some s
      ]
      else if length parts == 0 && eq_bytes what (codes "priority")
      then elim (n.to_int number) [ none ↦ some s | some p ↦ set_priority t p s ]
      else some s
  handle_set n t parts s = some s

  unfoldable pub handle_parts :
      Numerals → Times → List (List ℕ) → Connection d f → Option (Connection d f)
  handle_parts n t [] s = some s
  handle_parts n t (command ∷ parts) s =
      if eq_bytes command (codes "hello")
      then some (send (hello ∷ []) s)
      else if eq_bytes command (codes "ping")
      then some (send (ping ∷ []) s)
      else if eq_bytes command (codes "get")
      then some (handle_get parts s)
      else if eq_bytes command (codes "set")
      then handle_set n t parts s
      else if eq_bytes command (codes "sync")
      then send_colors t s
      else some s

  unfoldable pub handle_message :
      Numerals → Times → List ℕ → Connection d f → Option (Connection d f)
  handle_message n t message s = handle_parts n t (split message) s

  -- `times` gives the times of the first message, the second one, and so on.
  unfoldable pub handle_all :
      Numerals → (ℕ → Times) → ℕ → List (List ℕ) → Connection d f → Option (Connection d f)
  handle_all n times k [] s = some s
  handle_all n times k (m ∷ ms) s = do
    u ← handle_message n (times k) (trimmed m) s
    handle_all n times (k + 1) ms u

  unfoldable pub read_data :
      Numerals → (ℕ → Times) → List ℕ → Connection d f → Option (Connection d f)
  read_data n times received s = do
    r ← read_messages (length (s.receive_buffer ++ received)) (s.receive_buffer ++ received)
    handle_all n times 0 r.0 (record s { receive_buffer = r.1 })

  -- The data that arrives, piece by piece, each with the times of its messages.
  unfoldable pub receive :
      Numerals → List ((ℕ → Times) × List ℕ) → Connection d f → Option (Connection d f)
  receive n [] s = some s
  receive n ((times, received) ∷ more) s = do u ← read_data n times received s; receive n more u
