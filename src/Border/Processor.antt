-- ===== src/Border/Processor.antt =====
-- include/blackborder/BlackBorderProcessor.h and libsrc/blackborder/BlackBorderProcessor.cpp: the
-- current border, held against short-lived changes. The counters are 32-bit and wrap.
use Prim.Native.String.{String}
use text.Mathlib.Text.{◌==◌ as str_eq}
use hyperion_ng_beta.Prelude.{
  ℕ, ℤ, pos, negsuc, ◌+◌, ◌%◌, Option, none, some, ◌>>=◌, Bool, true, false, not, leb, ◌==◌, ltb_ℤ,
  if◌then◌else◌, u32, to_int32, List, [], ◌∷◌,
}
use hyperion_ng_beta.Image.{Image}
use hyperion_ng_beta.Border.{
  BlackBorder, border_eq, process, process_classic, process_osd, calculate_threshold,
}
pub mod Stable
pub mod Open
pub mod Settle

pub record BlackBorderProcessor : Type 0 where
  pub enabled : Bool
  pub unknown_switch_cnt : ℕ
  pub border_switch_cnt : ℕ
  pub max_inconsistent_cnt : ℕ
  pub blur_remove_cnt : ℕ
  pub detection_mode : String
  pub threshold : ℕ
  pub current_border : BlackBorder
  pub previous_detected_border : BlackBorder
  pub consistent_cnt : ℕ
  pub inconsistent_cnt : ℕ

abbrev pub unknown_border : BlackBorder
unknown_border = record { unknown = true; horizontal_size = negsuc 0; vertical_size = negsuc 0 }

-- The arguments are the values of the configuration, with its defaults put in;
-- `rgb_threshold` is `int(std::ceil(threshold * 255))`.
unfoldable pub init : Bool → ℕ → ℕ → ℕ → ℕ → String → ℤ → BlackBorderProcessor
init enable unknown_frame_cnt border_frame_cnt max_inconsistent_cnt blur_remove_cnt mode
      rgb_threshold =
    record {
      enabled = enable;
      unknown_switch_cnt = unknown_frame_cnt;
      border_switch_cnt = border_frame_cnt;
      max_inconsistent_cnt = max_inconsistent_cnt;
      blur_remove_cnt = blur_remove_cnt;
      detection_mode = mode;
      threshold = calculate_threshold rgb_threshold;
      current_border = unknown_border;
      previous_detected_border = unknown_border;
      consistent_cnt = 0;
      inconsistent_cnt = 10;
    }

unfoldable pub set_enabled : Bool → BlackBorderProcessor → BlackBorderProcessor
set_enabled enable s = record s { enabled = enable }

-- The second half of `updateBorder`: whether the new border becomes the current one.
unfoldable pub check_change : BlackBorder → BlackBorderProcessor → BlackBorderProcessor × Bool
check_change b s =
    let switched : BlackBorderProcessor = record s { current_border = b } in
    if border_eq s.current_border b
    then (record s { inconsistent_cnt = 0 }, false)
    else if b.unknown
    then (if s.consistent_cnt == s.unknown_switch_cnt then (switched, true) else (s, false))
    else if s.current_border.unknown
    then (switched, true)
    else if s.consistent_cnt == s.border_switch_cnt
    then (switched, true)
    else (s, false)

unfoldable pub update_border : BlackBorder → BlackBorderProcessor → BlackBorderProcessor × Bool
update_border b s =
    let counted = (s.inconsistent_cnt + 1) % u32 in
    if border_eq b s.previous_detected_border
    then check_change b
        (record s { consistent_cnt = (s.consistent_cnt + 1) % u32; inconsistent_cnt = 0 })
    else if leb counted s.max_inconsistent_cnt
    then (record s { inconsistent_cnt = counted }, false)
    else check_change b
        (record s { inconsistent_cnt = counted; previous_detected_border = b; consistent_cnt = 0 })

-- `uninit` is what the border holds that no detection mode has set.
unfoldable pub detect : BlackBorder → BlackBorderProcessor → Image → Option BlackBorder
detect uninit s image =
    if str_eq s.detection_mode "default"
    then process s.threshold image
    else if str_eq s.detection_mode "classic"
    then process_classic s.threshold image
    else if str_eq s.detection_mode "osd"
    then process_osd s.threshold image
    else some uninit

-- A positive size grows by the blur, as an `unsigned` that is read back as an `int`.
unfoldable pub blur : ℕ → ℤ → ℤ
blur cnt (pos n) = if n == 0 then pos n else to_int32 (n + cnt)
blur cnt (negsuc n) = negsuc n

unfoldable pub process_image :
    BlackBorder → Image → BlackBorderProcessor → Option (BlackBorderProcessor × Bool)
process_image uninit image s =
    let off : BlackBorder = record {
      unknown = true;
      horizontal_size = pos 0;
      vertical_size = pos 0;
    } in
    if not s.enabled then some (record s { current_border = off }, true) else do
      b ← detect uninit s image
      some (
          update_border
            (record b {
              horizontal_size = blur s.blur_remove_cnt b.horizontal_size;
              vertical_size = blur s.blur_remove_cnt b.vertical_size;
            })
            s)

-- A run of frames with the given borders.
unfoldable pub feed : List BlackBorder → BlackBorderProcessor → BlackBorderProcessor
feed [] s = s
feed (b ∷ bs) s = feed bs (update_border b s).0
