-- ===== src/Forwarder/Addresses.antt =====
-- The addresses that libsrc/hyperion/MessageForwarder.cpp takes.
use hyperion_ng_beta.Prelude.{
  ℕ, ◌==◌, false, not, ◌&&◌, List, [], ◌∷◌, ◌++◌, Option, none, some, All, Gives, Gives-bind,
  Gives-if, ◌≡◌, refl, split_at,
}
use hyperion_ng_beta.Forwarder.{
  MessageForwarder, ForwarderConfig, init, add_parts, add_json_slave, add_json_slaves, add_json,
  create_message_forwarder,
}

-- Without a colon.
abbrev pub IsPart : List ℕ → Type 0
IsPart = All (λ c. (c == b':') ≡ false)

module _ (to_ushort : List ℕ → Option ℕ) where
  -- A host, a colon and a port.
  pub record IsAddress (text : List ℕ) : Type 0 where
    pub host : List ℕ
    pub number : List ℕ
    pub port : ℕ
    pub whole : text ≡ host ++ b':' ∷ number
    pub host_part : IsPart host
    pub number_part : IsPart number
    pub reads : to_ushort number ≡ some port

  abbrev pub AllAddresses : Option (List (List ℕ)) → Type 0
  AllAddresses none = Unit
  AllAddresses (some texts) = All IsAddress texts

  split_at-part : (cs : List ℕ) → IsPart cs → split_at b':' cs ≡ cs ∷ []
  unfolding split_at
  split_at-part [] h = refl
  split_at-part (c ∷ cs) h = rw (split_at-part cs h.1, h.0) refl

  split_at-address :
      (cs ds : List ℕ) → IsPart cs → IsPart ds → split_at b':' (cs ++ b':' ∷ ds) ≡ cs ∷ ds ∷ []
  unfolding split_at
  split_at-address [] ds h k = rw (split_at-part ds k) refl
  split_at-address (c ∷ cs) ds h k = rw (split_at-address cs ds h.1 k, h.0) refl

  add_json_slave-Gives :
      (text : List ℕ) (s : MessageForwarder)
      → IsAddress text
      → Gives (λ _. Unit {0}) (add_json_slave to_ushort text s)
  unfolding add_json_slave add_parts
  add_json_slave-Gives text s a =
      let parts = split_at-address a.host a.number a.host_part a.number_part in
      rw (a.whole, parts, a.reads) (_, refl, tt)

  add_json_slaves-Gives :
      (texts : List (List ℕ)) (s : MessageForwarder)
      → All IsAddress texts
      → Gives (λ _. Unit {0}) (add_json_slaves to_ushort texts s)
  unfolding add_json_slaves
  add_json_slaves-Gives [] s h = (s, refl, tt)
  add_json_slaves-Gives (text ∷ texts) s h =
      Gives-bind (λ _. Unit {0}) (λ _. Unit {0}) _ _ (add_json_slave-Gives text s h.0)
        (λ t _. add_json_slaves-Gives texts t h.1)

  add_json-Gives :
      (texts : Option (List (List ℕ))) (s : MessageForwarder)
      → AllAddresses texts
      → Gives (λ _. Unit {0}) (add_json to_ushort texts s)
  unfolding add_json
  add_json-Gives none s h = (s, refl, tt)
  add_json-Gives (some texts) s h = add_json_slaves-Gives texts s h

  -- With addresses only, the forwarder is made without an exception.
  pub create_message_forwarder-Gives :
      (config : ForwarderConfig)
      → AllAddresses config.json
      → Gives (λ _. Unit {0}) (create_message_forwarder to_ushort config)
  unfolding create_message_forwarder
  create_message_forwarder-Gives config h =
      Gives-if (λ _. Unit {0}) (not config.is_empty && config.enable) _ _
        (λ _.
          Gives-bind (λ _. Unit {0}) (λ _. Unit {0}) _ _ (add_json-Gives config.json init h)
            (λ s _. (_, refl, tt)))
        (λ _. (init, refl, tt))
