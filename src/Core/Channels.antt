-- ===== src/Core/Channels.antt =====
-- The colors on the channels of the muxer: one for each led (libsrc/hyperion/Hyperion.cpp).
use hyperion_ng_beta.Prelude.{
  ℕ, ℤ, ◌≡◌, arith, List, [], ◌∷◌, Option, none, some, length, Gives, ◌⊎◌, inl, inr, min_ℤ, All,
  Bool-cases,
}
use hyperion_ng_beta.Color.{ColorRgb}
use hyperion_ng_beta.Components.{Components}
use hyperion_ng_beta.QMap.{insert, remove, keys}
use hyperion_ng_beta.QMap.Laws.{All-insert, All-remove}
use hyperion_ng_beta.Muxer.{
  PriorityMuxer, InputInfo, lowest_priority, no_timeout, set_input, clear_input, clear_all,
  set_current_time, sweep, is_expired, min_element, with_current,
}
use hyperion_ng_beta.Muxer.Invariant
use hyperion_ng_beta.Muxer.Invariant.{
  info, set_input-IsValid, clear_input-IsValid, clear_all-IsValid,
}
use hyperion_ng_beta.Muxer.Timeout.{set_current_time-IsValid}

-- The entry has one color for each of `n` leds.
abbrev pub IsSized : ℕ → ℤ × InputInfo → Type 0
IsSized n e = length e.1.led_colors ≡ n

-- A valid muxer whose channels have `n` colors each.
pub record HasLeds (n : ℕ) (m : PriorityMuxer) : Type 0 where
  pub valid : Invariant.IsValid m
  pub sized : All (IsSized n) m.active_inputs
  pub lowest_sized : length m.lowest_priority_info.led_colors ≡ n

pub set_input-HasLeds :
    (n : ℕ) (p : ℤ) (l : List ColorRgb) (t : ℤ) (c : Components) (m : PriorityMuxer)
    → length l ≡ n
    → (p ≡ lowest_priority → t ≡ no_timeout)
    → HasLeds n m
    → HasLeds n (set_input p l t c m)
unfolding set_input
set_input-HasLeds n p l t c m e h v = record {
  valid = set_input-IsValid p l t c m h v.valid;
  sized = All-insert (IsSized n) p (info p l t c) m.active_inputs e v.sized;
  lowest_sized = v.lowest_sized;
}

pub clear_all-HasLeds : (n : ℕ) (m : PriorityMuxer) → HasLeds n m → HasLeds n (clear_all m)
unfolding clear_all insert
clear_all-HasLeds n m v = record {
  valid = clear_all-IsValid m v.valid;
  sized = (v.lowest_sized, tt);
  lowest_sized = v.lowest_sized;
}

sweep-IsSized :
    (n : ℕ) (now c : ℤ) (l : List (ℤ × InputInfo))
    → All (IsSized n) l
    → All (IsSized n) (sweep now c l).1
unfolding sweep
sweep-IsSized n now c [] h = tt
sweep-IsSized n now c ((j, v) ∷ l) h = elim (Bool-cases (is_expired now v)) [
  | inl gone ↦ rw gone (sweep-IsSized n now c l h.1)
  | inr stays ↦ rw stays (h.0, sweep-IsSized n now (min_ℤ c v.priority) l h.1)
]

pub set_current_time-HasLeds :
    (n : ℕ) (now : ℤ) (m : PriorityMuxer) → HasLeds n m → HasLeds n (set_current_time now m)
unfolding set_current_time
set_current_time-HasLeds n now m v = record {
  valid = set_current_time-IsValid now m v.valid;
  sized = sweep-IsSized n now lowest_priority m.active_inputs v.sized;
  lowest_sized = v.lowest_sized;
}

with_current_fields :
    (s t : PriorityMuxer) (o : Option ℤ)
    → with_current s o ≡ some t
    → (t.active_inputs ≡ s.active_inputs) × (t.lowest_priority_info ≡ s.lowest_priority_info)
with_current_fields s t none e = cc
with_current_fields s t (some p) e = ground arith

clear_input_fields :
    (p : ℤ) (s t : PriorityMuxer)
    → clear_input p s ≡ some t
    → ((t.active_inputs ≡ s.active_inputs) ⊎ (t.active_inputs ≡ remove p s.active_inputs))
      × (t.lowest_priority_info ≡ s.lowest_priority_info)
unfolding clear_input
clear_input_fields p s t e =
    let left = remove p s.active_inputs in
    ground
      (arith, with_current_fields (record s { active_inputs = left }) t (min_element (keys left)))

pub clear_input-HasLeds :
    (n : ℕ) (p : ℤ) (m : PriorityMuxer) → HasLeds n m → Gives (HasLeds n) (clear_input p m)
clear_input-HasLeds n p m v =
    let (t, e, w) = clear_input-IsValid p m v.valid in
    let (inputs, lowest) = clear_input_fields p m t e in
    (
      t,
      e,
      record {
        valid = w;
        sized = elim inputs [
          | inl same ↦ rw same v.sized
          | inr less ↦ rw less (All-remove (IsSized n) p m.active_inputs v.sized)
        ];
        lowest_sized = rw lowest v.lowest_sized;
      },
    )
