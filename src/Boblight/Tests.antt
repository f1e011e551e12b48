-- ===== src/Boblight/Tests.antt =====
-- A client of the Boblight server (libsrc/boblightserver/BoblightClientConnection.cpp) that sets two
-- lights and then another priority.
use hyperion_ng_beta.Prelude.{
  split_at, ℕ, pos, ◌+◌, ◌-◌, ◌*◌, leb, ltb_ℤ, eqb_ℤ, true, ◌&&◌, if◌then◌else◌, List, [], ◌∷◌,
  ◌++◌, Option, none, some, ◌>>=◌, replicate, codes, Gives, ◌≡◌, refl, arith,
}
use hyperion_ng_beta.Color.{black}
use hyperion_ng_beta.Muxer.{get_input_info, lowest_priority}
use hyperion_ng_beta.Adjust.Doubles.{whole}
use hyperion_ng_beta.Leds.Led.{percent}
use hyperion_ng_beta.Core.Clear.Tests.{selected, selected-IsValid}
use hyperion_ng_beta.Boblight.Text.{
  Numerals, index_of_next, read_messages, split, trimmed, skip_empty, trim_left, trim_right,
  is_space,
}
use hyperion_ng_beta.Boblight.Connection.{Times, Connection, receive, socket_closed, set_priority}
use hyperion_ng_beta.Boblight.Lines.{AreLines, read_messages-AreLines}
use hyperion_ng_beta.Boblight.Serves.{IsValid, receive-IsValid}
use hyperion_ng_beta.Boblight.Closes.{leaves-gone}

abbrev read_digits : ℕ → List ℕ → Option ℕ
read_digits n [] = some n
read_digits n (c ∷ cs) =
    let rest = read_digits (10 * n + (c - 48)) cs in if leb 48 c && leb c 57 then rest else none

-- Whole numbers only.
abbrev whole_numbers : Numerals
whole_numbers = record {
  to_uint = read_digits 0;
  to_int = λ text. read_digits 0 text >>= λ n. some (pos n);
  times_255 = λ text. read_digits 0 text >>= λ n. some (pos (255 * n));
}

abbrev first_times : Times
first_times = record { now = pos 10; now_update = pos 11; later = pos 12 }

abbrev client : Connection whole percent
client = record {
  hyperion = selected;
  receive_buffer = [];
  priority = pos 50;
  led_colors = replicate 2 black;
  locale_dot = true;
  sent = [];
}

client-IsValid : IsValid whole percent 2 client
client-IsValid = record { core = selected-IsValid; sized = refl }

abbrev piece : List ℕ
piece = codes "hello" ++ b'\n' ∷ codes "set light 1 rgb 1 0 0" ++ b'\n' ∷ codes "set pri"

abbrev next_piece : List ℕ
next_piece = codes "ority 60" ++ b'\n' ∷ []

read_messages-AreLines_example : Gives (AreLines piece) (read_messages 35 piece)
read_messages-AreLines_example = read_messages-AreLines 35 piece (omega arith) (omega arith)

receive-IsValid_example : Gives (IsValid whole percent 2) (
    receive whole percent whole_numbers
      (((λ k. first_times), piece) ∷ ((λ k. first_times), next_piece) ∷ [])
      client)
receive-IsValid_example =
    receive-IsValid whole percent 2 whole_numbers
      (((λ k. first_times), piece) ∷ ((λ k. first_times), next_piece) ∷ []) client client-IsValid

leaves-gone_example :
    Gives
      (λ (u : Connection whole percent).
        IsValid whole percent 2 u
        × (get_input_info u.hyperion.muxer (pos 50) ≡ none)
        × (u.priority ≡ lowest_priority))
      (socket_closed whole percent first_times client)
    × Gives
        (λ (u : Connection whole percent).
          IsValid whole percent 2 u
          × (get_input_info u.hyperion.muxer (pos 50) ≡ none)
          × (u.priority ≡ pos 60))
        (set_priority whole percent first_times (pos 60) client)
unfolding ltb_ℤ eqb_ℤ
leaves-gone_example =
    leaves-gone whole percent 2 first_times (pos 60) client refl refl client-IsValid

reads_two_lines :
    read_messages 35 piece
    ≡ some ((codes "hello" ∷ codes "set light 1 rgb 1 0 0" ∷ []), codes "set pri")
unfolding read_messages index_of_next
reads_two_lines = refl

splits_words :
    split (trimmed (codes "  set  light 1 ")) ≡ codes "set" ∷ codes "light" ∷ codes "1" ∷ []
unfolding split trimmed split_at skip_empty trim_left trim_right is_space
splits_words = refl
