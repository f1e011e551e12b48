-- ===== src/Effects.antt =====
-- libsrc/effectengine/EffectEngine.cpp: the active effects, together with the core that they run for
-- and its register of priorities (registerPriority of libsrc/hyperion/Hyperion.cpp). Effects run in
-- threads of their own; the state has what the engine keeps of them. `J` are the JSON values that a
-- script takes as arguments.
use Prim.Native.String.{String}
use text.Mathlib.Text.{◌==◌ as str_eq}
use hyperion_ng_beta.Prelude.{
  ℕ, ℤ, pos, negsuc, ◌==◌, Bool, true, false, if◌then◌else◌, eqb_ℤ, List, [], ◌∷◌, ◌++◌, map,
  Option, none, some, ◌>>=◌,
}
use hyperion_ng_beta.Adjust.Doubles.{Doubles}
use hyperion_ng_beta.Leds.Led.{Fractions}
use hyperion_ng_beta.Core.{
  Hyperion, EffectSignal, channel_cleared as to_channel, all_channels_cleared as to_all, clear,
}
use hyperion_ng_beta.Muxer.{lowest_priority}
use hyperion_ng_beta.Core.Requests.{Request, step}
pub mod Active
pub mod Runs
pub mod Finishes
pub mod Reaches
pub mod Starts
pub mod Tests

-- What a script is given: the fields of a QJsonObject.
abbrev Args : Type 0 → Type 0
Args J = List (String × J)

pub record EffectDefinition (J : Type 0) : Type 0 where
  pub name : String
  pub script : String
  pub file : String
  pub args : Args J

pub record ActiveEffectDefinition (J : Type 0) : Type 0 where
  pub script : String
  pub name : String
  pub priority : ℤ
  pub timeout : ℤ
  pub args : Args J

-- An effect and the address of its object.
pub record Effect (J : Type 0) : Type 0 where
  pub address : ℕ
  pub priority : ℤ
  pub timeout : ℤ
  pub script : String
  pub name : String
  pub args : Args J
  pub abort_requested : Bool

-- The engine with its core.
pub record System (d : Doubles) (f : Fractions) (J : Type 0) : Type 0 where
  pub hyperion : Hyperion d f
  pub priority_register : List (String × ℤ)
  pub available_effects : List (EffectDefinition J)
  pub active_effects : List (Effect J)

-- std::map<std::string, int>: `emplace` leaves an entry that is there; the order of the entries is not
-- observed.
unfoldable pub registered : String → List (String × ℤ) → Option ℤ
registered name [] = none
registered name ((n, p) ∷ m) = if str_eq n name then some p else registered name m

unfoldable pub register_priority : String → ℤ → List (String × ℤ) → List (String × ℤ)
register_priority name priority m = elim (registered name m) [
  | none ↦ m ++ (name, priority) ∷ []
  | some p ↦ m
]

unfoldable pub unregister_priority : String → List (String × ℤ) → List (String × ℤ)
unregister_priority name [] = []
unregister_priority name ((n, p) ∷ m) =
    let rest = unregister_priority name m in if str_eq n name then rest else (n, p) ∷ rest

module _ {J : Type 0} where
  unfoldable pub abort : Effect J → Effect J
  abort e = record e { abort_requested = true }

  unfoldable pub abort_on : ℤ → Effect J → Effect J
  abort_on priority e = if eqb_ℤ e.priority priority then abort e else e

  unfoldable pub channel_cleared : ℤ → List (Effect J) → List (Effect J)
  channel_cleared priority es = map (abort_on priority) es

  unfoldable pub all_channels_cleared : List (Effect J) → List (Effect J)
  all_channels_cleared es = map abort es

  unfoldable pub get_active_effects : List (Effect J) → List (ActiveEffectDefinition J)
  get_active_effects es =
      map
        (λ e. record {
          script = e.script;
          name = e.name;
          priority = e.priority;
          timeout = e.timeout;
          args = e.args;
        })
        es

  unfoldable pub find_definition : String → List (EffectDefinition J) → Option (EffectDefinition J)
  find_definition name [] = none
  find_definition name (e ∷ es) = if str_eq e.name name then some e else find_definition name es

  -- The effect at an address; none for one that is not active.
  unfoldable pub find_effect : ℕ → List (Effect J) → Option (Effect J)
  find_effect address [] = none
  find_effect address (e ∷ es) =
      let rest = find_effect address es in if e.address == address then some e else rest

  unfoldable pub erase : ℕ → List (Effect J) → List (Effect J)
  erase address [] = []
  erase address (e ∷ es) =
      let rest = erase address es in if e.address == address then es else e ∷ rest

  unfoldable pub is_empty : Args J → Bool
  is_empty [] = true
  is_empty (a ∷ rest) = false

  -- The calls that the core makes to the engine, in their order.
  unfoldable pub deliver : List EffectSignal → List (Effect J) → List (Effect J)
  deliver [] es = es
  deliver (to_channel p ∷ xs) es = deliver xs (channel_cleared p es)
  deliver (to_all ∷ xs) es = deliver xs (all_channels_cleared es)

module _ (d : Doubles) (f : Fractions) {J : Type 0} where
  -- The system once the constructor of the core is through: it registers its lowest priority.
  unfoldable pub init : Hyperion d f → List (EffectDefinition J) → System d f J
  init h available = record {
    hyperion = h;
    priority_register = register_priority "Off" lowest_priority [];
    available_effects = available;
    active_effects = [];
  }

  -- The core after a call of it, with its calls of the engine carried out. These only set flags that
  -- the core does not read, so that they may follow the rest of the call.
  unfoldable pub with_calls : Hyperion d f → System d f J → System d f J
  with_calls h s = record s {
    hyperion = record h { effect_signals = [] };
    active_effects = deliver h.effect_signals s.active_effects;
  }

  unfoldable pub request : {n : ℕ} → Request n → System d f J → Option (System d f J)
  request r s = do h ← step d f s.hyperion r; some (with_calls h s)

  -- `address` is that of the new object.
  unfoldable pub run_effect_script :
      ℕ → String → String → Args J → ℤ → ℤ → System d f J → System d f J × ℤ
  run_effect_script address script name args priority timeout s =
      let effect : Effect J = record {
        address = address;
        priority = priority;
        timeout = timeout;
        script = script;
        name = name;
        args = args;
        abort_requested = false;
      } in
      (
        record s {
          active_effects = channel_cleared priority s.active_effects ++ effect ∷ [];
          priority_register = register_priority name priority s.priority_register;
        },
        pos 0,
      )

  unfoldable pub run_effect : ℕ → String → Args J → ℤ → ℤ → String → System d f J → System d f J × ℤ
  run_effect address name args priority timeout python_script s =
      if str_eq python_script ""
      then elim (find_definition name s.available_effects) [
        | none ↦ (s, negsuc 0)
        | some e ↦
            run_effect_script address e.script name (if is_empty args then e.args else args)
              priority timeout s
      ]
      else run_effect_script address python_script name args priority timeout s

  -- The times are those that `clear` reads.
  unfoldable pub clear_finished : ℤ → ℤ → Effect J → System d f J → Option (System d f J)
  clear_finished now later e s =
      if e.abort_requested
      then some s
      else (do h ← clear d f now later e.priority s.hyperion; some (with_calls h s))

  unfoldable pub effect_finished : ℤ → ℤ → Effect J → System d f J → Option (System d f J)
  effect_finished now later e s = do
    t ← clear_finished now later e s
    some (record t {
      active_effects = erase e.address t.active_effects;
      priority_register = unregister_priority e.name t.priority_register;
    })
