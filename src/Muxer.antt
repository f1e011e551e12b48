-- ===== src/Muxer.antt =====
-- libsrc/hyperion/PriorityMuxer.cpp and include/hyperion/PriorityMuxer.h. A method that changes the
-- muxer returns the new one. `int` and `int64_t` are integers: no operation here computes a new one.
use hyperion_ng_beta.Prelude.{
  ℕ, ℤ, pos, negsuc, List, [], ◌∷◌, Option, none, some, Bool, true, false, not, ◌&&◌, ◌≡◌, ltb_ℤ,
  leb_ℤ, eqb_ℤ, min_ℤ, if◌then◌else◌, replicate,
}
use hyperion_ng_beta.Color.{ColorRgb, black}
use hyperion_ng_beta.Components.{Components, comp_invalid}
use hyperion_ng_beta.QMap.{find, contains, insert, remove, keys}
pub mod Inputs
pub mod Invariant
pub mod Timeout
pub mod Runs
pub mod Tests

pub record InputInfo : Type 0 where
  pub priority : ℤ
  pub timeout_time_ms : ℤ
  pub led_colors : List ColorRgb
  pub component_id : Components

pub record PriorityMuxer : Type 0 where
  pub current_priority : ℤ
  pub active_inputs : List (ℤ × InputInfo)
  pub lowest_priority_info : InputInfo

abbrev pub lowest_priority : ℤ
lowest_priority = pos 255

-- A timeout of -1 means that the channel does not time out.
abbrev pub no_timeout : ℤ
no_timeout = negsuc 0

-- The constructor leaves the component of the lowest channel unset; `component` is what it holds.
unfoldable pub init : ℕ → Components → PriorityMuxer
init led_count component =
    let info : InputInfo = record {
      priority = lowest_priority;
      timeout_time_ms = no_timeout;
      led_colors = replicate led_count black;
      component_id = component;
    } in
    record {
      current_priority = lowest_priority;
      active_inputs = insert lowest_priority info [];
      lowest_priority_info = info;
    }

unfoldable pub get_current_priority : PriorityMuxer → ℤ
get_current_priority m = m.current_priority

unfoldable pub get_priorities : PriorityMuxer → List ℤ
get_priorities m = keys m.active_inputs

unfoldable pub has_priority : PriorityMuxer → ℤ → Bool
unfolding contains
has_priority m priority =
    if eqb_ℤ priority lowest_priority then true else contains priority m.active_inputs

-- `none` is the exception "no such priority".
unfoldable pub get_input_info : PriorityMuxer → ℤ → Option InputInfo
get_input_info m priority = find priority m.active_inputs

unfoldable pub set_input : ℤ → List ColorRgb → ℤ → Components → PriorityMuxer → PriorityMuxer
set_input priority led_colors timeout_time_ms component m = record m {
  current_priority = min_ℤ m.current_priority priority;
  active_inputs =
      insert priority
        (record {
          priority = priority;
          timeout_time_ms = timeout_time_ms;
          led_colors = led_colors;
          component_id = component;
        })
        m.active_inputs;
}

-- `std::min_element`, dereferenced: `none` on an empty list, where the source reads past the end.
unfoldable pub min_from : ℤ → List ℤ → ℤ
min_from best [] = best
min_from best (k ∷ ks) = min_from (min_ℤ best k) ks

unfoldable pub min_element : List ℤ → Option ℤ
min_element [] = none
min_element (k ∷ ks) = some (min_from k ks)

abbrev pub with_current : PriorityMuxer → Option ℤ → Option PriorityMuxer
with_current m none = none
with_current m (some p) = some (record m { current_priority = p })

unfoldable pub clear_input : ℤ → PriorityMuxer → Option PriorityMuxer
clear_input priority m =
    let inputs = remove priority m.active_inputs in
    let removed : PriorityMuxer = record m { active_inputs = inputs } in
    if ltb_ℤ priority lowest_priority
    then (if eqb_ℤ m.current_priority priority
        then with_current removed (min_element (keys inputs))
        else some removed)
    else some m

unfoldable pub clear_all : PriorityMuxer → PriorityMuxer
clear_all m = record m {
  current_priority = lowest_priority;
  active_inputs = insert lowest_priority m.lowest_priority_info [];
}

unfoldable pub is_expired : ℤ → InputInfo → Bool
is_expired now info = not (eqb_ℤ info.timeout_time_ms no_timeout) && leb_ℤ info.timeout_time_ms now

-- The loop of `setCurrentTime`: the current priority found so far, and the entries kept.
unfoldable pub sweep : ℤ → ℤ → List (ℤ × InputInfo) → ℤ × List (ℤ × InputInfo)
sweep now current [] = (current, [])
sweep now current ((k, info) ∷ m) =
    let expired = is_expired now info in
    let (c, kept) = sweep now (if expired then current else min_ℤ current info.priority) m in
    (c, if expired then kept else (k, info) ∷ kept)

unfoldable pub set_current_time : ℤ → PriorityMuxer → PriorityMuxer
set_current_time now m =
    let (c, kept) = sweep now lowest_priority m.active_inputs in
    record m { current_priority = c; active_inputs = kept }
