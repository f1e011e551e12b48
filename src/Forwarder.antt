-- ===== src/Forwarder.antt =====
-- libsrc/hyperion/MessageForwarder.cpp, and createMessageForwarder of libsrc/hyperion/Hyperion.cpp, which
-- reads the addresses to forward to. Texts are lists of the codes of their characters; `none` is an
-- exception.
use hyperion_ng_beta.Prelude.{
  ℕ, Bool, true, false, not, ◌&&◌, ◌||◌, if◌then◌else◌, List, [], ◌∷◌, ◌++◌, Option, none, some,
  ◌>>=◌, length, ◌==◌, split_at,
}
pub mod Addresses
pub mod Tests

-- An address, which QHostAddress reads, and a port.
pub record JsonSlaveAddress : Type 0 where
  pub addr : List ℕ
  pub port : ℕ

pub record MessageForwarder : Type 0 where
  pub proto_slaves : List (List ℕ)
  pub json_slaves : List JsonSlaveAddress

-- The object `forwarder` of the configuration: whether it has no fields, `enable` with its default
-- true, and the texts of the arrays; an array is none where there is none, and a text is empty where
-- the value is no text.
pub record ForwarderConfig : Type 0 where
  pub is_empty : Bool
  pub enable : Bool
  pub json : Option (List (List ℕ))
  pub proto : Option (List (List ℕ))

abbrev pub init : MessageForwarder
init = record { proto_slaves = []; json_slaves = [] }

unfoldable pub add_proto_slave : List ℕ → MessageForwarder → MessageForwarder
add_proto_slave slave s = record s { proto_slaves = s.proto_slaves ++ slave ∷ [] }

unfoldable pub add_proto_slaves : List (List ℕ) → MessageForwarder → MessageForwarder
add_proto_slaves [] s = s
add_proto_slaves (slave ∷ slaves) s = add_proto_slaves slaves (add_proto_slave slave s)

unfoldable pub add_proto : Option (List (List ℕ)) → MessageForwarder → MessageForwarder
add_proto none s = s
add_proto (some slaves) s = add_proto_slaves slaves s

unfoldable pub forwarding_enabled : MessageForwarder → Bool
forwarding_enabled s = not (length s.json_slaves == 0) || not (length s.proto_slaves == 0)

-- The argument is QString::toUShort, none for a text that is no such number.
module _ (to_ushort : List ℕ → Option ℕ) where
  -- The parts of the address between colons.
  unfoldable pub add_parts : List (List ℕ) → MessageForwarder → Option MessageForwarder
  add_parts (addr ∷ number ∷ []) s = do
    port ← to_ushort number
    some (record s { json_slaves = s.json_slaves ++ record { addr = addr; port = port } ∷ [] })
  add_parts parts s = none

  unfoldable pub add_json_slave : List ℕ → MessageForwarder → Option MessageForwarder
  add_json_slave slave s = add_parts (split_at b':' slave) s

  unfoldable pub add_json_slaves : List (List ℕ) → MessageForwarder → Option MessageForwarder
  add_json_slaves [] s = some s
  add_json_slaves (slave ∷ slaves) s = do t ← add_json_slave slave s; add_json_slaves slaves t

  unfoldable pub add_json : Option (List (List ℕ)) → MessageForwarder → Option MessageForwarder
  add_json none s = some s
  add_json (some slaves) s = add_json_slaves slaves s

  unfoldable pub create_message_forwarder : ForwarderConfig → Option MessageForwarder
  create_message_forwarder config =
      if not config.is_empty && config.enable
      then (do s ← add_json config.json init; some (add_proto config.proto s))
      else some init
