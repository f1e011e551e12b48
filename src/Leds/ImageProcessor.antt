-- ===== src/Leds/ImageProcessor.antt =====
-- include/hyperion/ImageProcessor.h and libsrc/hyperion/ImageProcessor.cpp: from a picture to the led
-- colors, with the mapping made again when the size of the picture or its border changes.
use Prim.Native.String.{String}
use text.Mathlib.Text.{◌==◌ as str_eq}
use hyperion_ng_beta.Prelude.{
  ℕ, ℤ, pos, negsuc, Bool, ◌&&◌, ◌||◌, not, if◌then◌else◌, ◌==◌, eqb_ℤ, List, Option, none, some,
  ◌>>=◌, length, u32, ◌-◌, ◌%◌, suc,
}
use hyperion_ng_beta.Color.{ColorRgb}
use hyperion_ng_beta.Image.{Image}
use hyperion_ng_beta.Border.{BlackBorder}
use hyperion_ng_beta.Border.Processor.{BlackBorderProcessor, process_image, set_enabled}
use hyperion_ng_beta.Leds.Led.{Fractions, Led}
use hyperion_ng_beta.Leds.ImageToLedsMap.{
  ImageToLedsMap, new_map, get_mean_led_color, get_uni_led_color,
}

pub record ImageProcessor (f : Fractions) : Type 0 where
  pub led_string : List (Led f)
  pub border_processor : BlackBorderProcessor
  pub image_to_leds : Option ImageToLedsMap
  pub mapping_type : ℤ

-- An `int` as an `unsigned` argument.
unfoldable pub to_unsigned : ℤ → ℕ
to_unsigned (pos n) = n
to_unsigned (negsuc n) = u32 - suc n % u32

unfoldable pub mapping_type_to_int : String → ℤ
mapping_type_to_int s = if str_eq s "unicolor_mean" then pos 1 else pos 0

unfoldable pub mapping_type_to_str : ℤ → String
mapping_type_to_str t = if eqb_ℤ t (pos 1) then "unicolor_mean" else "multicolor_mean"

module _ (f : Fractions) where
  unfoldable pub init : List (Led f) → BlackBorderProcessor → ImageProcessor f
  init leds p = record {
    led_string = leds;
    border_processor = p;
    image_to_leds = none;
    mapping_type = pos 0;
  }

  unfoldable pub get_led_count : ImageProcessor f → ℕ
  get_led_count s = length s.led_string

  unfoldable pub enable_black_border_detector : Bool → ImageProcessor f → ImageProcessor f
  enable_black_border_detector enable s = record s {
    border_processor = set_enabled enable s.border_processor;
  }

  unfoldable pub set_led_mapping_type : ℤ → ImageProcessor f → ImageProcessor f
  set_led_mapping_type t s = record s { mapping_type = t }

  -- A mapping for these sizes and borders, put in place of the old one.
  unfoldable pub renew :
      ℕ → ℕ → ℕ → ℕ → ImageProcessor f → Option (ImageProcessor f × ImageToLedsMap)
  renew width height horizontal vertical s = do
    m ← new_map f width height horizontal vertical s.led_string
    some (record s { image_to_leds = some m }, m)

  unfoldable pub keep_or_renew :
      Option ImageToLedsMap → ℕ → ℕ → ImageProcessor f → Option (ImageProcessor f × ImageToLedsMap)
  keep_or_renew none width height s = renew width height 0 0 s
  keep_or_renew (some m) width height s =
      if m.width == width && m.height == height then some (s, m) else renew width height 0 0 s

  unfoldable pub set_size : ℕ → ℕ → ImageProcessor f → Option (ImageProcessor f × ImageToLedsMap)
  set_size width height s = keep_or_renew s.image_to_leds width height s

  unfoldable pub border_map :
      BlackBorder → Image → ImageProcessor f → Option (ImageProcessor f × ImageToLedsMap)
  border_map b image s =
      if b.unknown
      then renew image.width image.height 0 0 s
      else renew image.width image.height (to_unsigned b.horizontal_size)
          (to_unsigned b.vertical_size) s

  unfoldable pub process_and_renew :
      BlackBorder → Image → ImageProcessor f → Option (ImageProcessor f × ImageToLedsMap)
  process_and_renew uninit image s = do
    r ← process_image uninit image s.border_processor
    renew image.width image.height 0 0 (record s { border_processor = r.0 })

  unfoldable pub process_and_switch :
      BlackBorder
      → Image
      → ImageProcessor f × ImageToLedsMap
      → Option (ImageProcessor f × ImageToLedsMap)
  process_and_switch uninit image (s, m) = do
    r ← process_image uninit image s.border_processor
    let t : ImageProcessor f = record s { border_processor = r.0 }
    if r.1 then border_map r.0.current_border image t else some (t, m)

  -- The first `if` of `verifyBorder`: a detector that is off leaves no border in the mapping.
  unfoldable pub reset_border :
      BlackBorder
      → Image
      → ImageProcessor f × ImageToLedsMap
      → Option (ImageProcessor f × ImageToLedsMap)
  reset_border uninit image (s, m) =
      if not s.border_processor.enabled
        && (not (m.horizontal_border == 0) || not (m.vertical_border == 0))
      then process_and_renew uninit image s
      else some (s, m)

  -- The second `if`: a new border makes a new mapping.
  unfoldable pub switch_border :
      BlackBorder
      → Image
      → ImageProcessor f × ImageToLedsMap
      → Option (ImageProcessor f × ImageToLedsMap)
  switch_border uninit image (s, m) =
      if s.border_processor.enabled then process_and_switch uninit image (s, m) else some (s, m)

  unfoldable pub verify_border :
      BlackBorder
      → Image
      → ImageProcessor f × ImageToLedsMap
      → Option (ImageProcessor f × ImageToLedsMap)
  verify_border uninit image r = do q ← reset_border uninit image r; switch_border uninit image q

  unfoldable pub led_colors : ℕ → ℤ → ImageToLedsMap → Image → Option (List ColorRgb)
  led_colors modulus t m image =
      if eqb_ℤ t (pos 1)
      then get_uni_led_color modulus m image
      else get_mean_led_color modulus m image

  -- `none` is a failed `assert`, a division by zero, or a read outside of the picture.
  unfoldable pub process :
      ℕ → BlackBorder → Image → ImageProcessor f → Option (ImageProcessor f × List ColorRgb)
  process modulus uninit image s = do
    r ← set_size image.width image.height s
    (t, m) ← verify_border uninit image r
    colors ← led_colors modulus t.mapping_type m image
    some (t, colors)
