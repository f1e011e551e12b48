-- ===== src/Forwarder/Tests.antt =====
-- The forwarder (libsrc/hyperion/MessageForwarder.cpp) with one address of each kind.
use hyperion_ng_beta.Prelude.{
  ℕ, ◌-◌, true, false, if◌then◌else◌, ◌&&◌, leb, List, [], ◌∷◌, Option, none, some, codes, ◌≡◌,
  refl, split_at,
}
use hyperion_ng_beta.Forwarder.Addresses.{AllAddresses}
use hyperion_ng_beta.Forwarder.{
  ForwarderConfig, add_parts, add_json_slave, add_json_slaves, add_json, add_proto_slave,
  add_proto_slaves, add_proto, create_message_forwarder,
}

-- Ports of one digit.
abbrev pub read_port : List ℕ → Option ℕ
read_port (c ∷ []) = if leb 48 c && leb c 57 then some (c - 48) else none
read_port text = none

abbrev pub forwards : ForwarderConfig
forwards = record {
  is_empty = false;
  enable = true;
  json = some (codes "leds:7" ∷ []);
  proto = some (codes "host" ∷ []);
}

pub forwards-AllAddresses : AllAddresses read_port forwards.json
forwards-AllAddresses = (
  record {
    host = codes "leds";
    number = codes "7";
    port = 7;
    whole = refl;
    host_part = (refl, (refl, (refl, (refl, tt))));
    number_part = (refl, tt);
    reads = refl;
  },
  tt,
)

creates_forwarder :
    create_message_forwarder read_port forwards
    ≡ some (record {
      proto_slaves = codes "host" ∷ [];
      json_slaves = record { addr = codes "leds"; port = 7 } ∷ [];
    })
unfolding create_message_forwarder add_json add_json_slaves add_json_slave add_parts add_proto
    add_proto_slaves add_proto_slave split_at
creates_forwarder = refl

throws_without_port :
    create_message_forwarder read_port (record forwards { json = some (codes "leds" ∷ []) }) ≡ none
unfolding create_message_forwarder add_json add_json_slaves add_json_slave add_parts split_at
throws_without_port = refl
