-- ===== src/Muxer/Inputs.antt =====
-- What the channels of the muxer hold after a call (PriorityMuxer.cpp), against a specification that
-- forgets the order of the map and the cached current priority.
use hyperion_ng_beta.Prelude.{
  ℤ, Option, none, some, ◌&&◌, ◌≡◌, ltb_ℤ, eqb_ℤ, eqb_ℤ_iff, if◌then◌else◌, arith, ◌≤ℤ◌,
  Option-cases, inl, inr, some,
}
use hyperion_ng_beta.QMap.{find, contains, is_some, remove, insert, keys}
use hyperion_ng_beta.QMap.Laws.{find-insert, find-remove, All-find}
use hyperion_ng_beta.Muxer.{
  PriorityMuxer, InputInfo, lowest_priority, set_input, clear_input, clear_all, set_current_time,
  get_input_info, has_priority, get_current_priority, min_element, with_current,
}
use hyperion_ng_beta.Muxer.Invariant.{IsValid, Fits, info}
use hyperion_ng_beta.Muxer.Timeout.{find-sweep, unless_expired, contains_of_HasLowest}
use hyperion_ng_beta.Muxer.Runs.{Call, sets, clears, clears_all, passes, step}

-- The channels as a function from priorities.
abbrev pub Channels : Type 0
Channels = ℤ → Option InputInfo

-- What a call does to the channels; `lowest` is what the lowest channel is set back to.
abbrev pub effect : InputInfo → Call → Channels → Channels
effect lowest (sets p l t c h) f k =
    if eqb_ℤ p k
    then some (record { priority = p; timeout_time_ms = t; led_colors = l; component_id = c })
    else f k
effect lowest (clears p) f k = if ltb_ℤ p lowest_priority && eqb_ℤ p k then none else f k
effect lowest clears_all f k = if eqb_ℤ lowest_priority k then some lowest else none
effect lowest (passes now) f k = unless_expired now (f k)

with_current_inputs :
    (s t : PriorityMuxer) (o : Option ℤ)
    → with_current s o ≡ some t
    → t.active_inputs ≡ s.active_inputs
with_current_inputs s t none e = cc
with_current_inputs s t (some p) e = ground arith

pub clear_input_inputs :
    (p : ℤ) (s t : PriorityMuxer)
    → clear_input p s ≡ some t
    → t.active_inputs
      ≡ (if ltb_ℤ p lowest_priority then remove p s.active_inputs else s.active_inputs)
unfolding clear_input
clear_input_inputs p s t e =
    let left = remove p s.active_inputs in
    ground
      (arith, with_current_inputs (record s { active_inputs = left }) t (min_element (keys left)))

-- In a valid muxer each call changes the channels, seen as a function from priorities, as
-- specified: a set channel holds the input, a cleared one below the lowest is gone, clearing all
-- leaves the lowest, and the passing of time removes exactly the expired channels; all other
-- channels stay.
pub step-effect :
    (s t : PriorityMuxer) (c : Call) (k : ℤ)
    → IsValid s
    → step s c ≡ some t
    → get_input_info t k ≡ effect s.lowest_priority_info c (get_input_info s) k
unfolding get_input_info set_input clear_all set_current_time find insert
step-effect s t (sets p l tm c h) k v e =
    ground (arith, find-insert k p (info p l tm c) s.active_inputs)
step-effect s t (clears p) k v e =
    ground (arith, clear_input_inputs p s t e, find-remove k p s.active_inputs v.ascending)
step-effect s t clears_all k v e = ground arith
step-effect s t (passes now) k v e =
    ground (arith, find-sweep k now lowest_priority s.active_inputs v.ascending)

-- In a valid muxer the test hasPriority finds exactly the channels for which getInputInfo does not
-- throw.
pub has_priority_iff :
    (s : PriorityMuxer) (k : ℤ) → IsValid s → has_priority s k ≡ is_some (get_input_info s k)
unfolding has_priority get_input_info contains
has_priority_iff s k v =
    ground (arith, eqb_ℤ_iff k lowest_priority, contains_of_HasLowest s.active_inputs v.has_lowest)

-- In a valid muxer the current priority is that of an active channel, and no active channel has a
-- smaller one.
pub current_priority-least :
    (s : PriorityMuxer)
    → IsValid s
    → (i : InputInfo) × (get_input_info s (get_current_priority s) ≡ some i)
      × ((k : ℤ) (j : InputInfo) → get_input_info s k ≡ some j → get_current_priority s ≤ℤ k)
unfolding get_input_info get_current_priority contains
current_priority-least s v = elim (Option-cases (find s.current_priority s.active_inputs)) [
  | inl e ↦ absurd (ground (arith, e, v.active))
  | inr (i, e) ↦ (i, e, λ k j f. (All-find (Fits s.current_priority) k s.active_inputs f v.least).1)
]
