-- ===== src/Components.antt =====
-- include/utils/Components.h: the components of Hyperion and their id strings.
use Prim.Native.String.{String}
use text.Mathlib.Text.{◌==◌ as str_eq}
use hyperion_ng_beta.Prelude.{ℕ, ◌==◌, ◌≡◌, ◌≢◌, refl, Bool, false, true, if◌then◌else◌, arith}
pub mod Tests

pub data Components : Type 0 where
  comp_invalid : Components
  comp_smoothing : Components
  comp_blackborder : Components
  comp_kodichecker : Components
  comp_forwarder : Components
  comp_udplistener : Components
  comp_boblightserver : Components
  comp_grabber : Components
  comp_v4l : Components
  comp_color : Components
  comp_effect : Components

-- The numbers of the enumerators, by which `==` compares them.
unfoldable pub enumerator : Components → ℕ
enumerator comp_invalid = 0
enumerator comp_smoothing = 1
enumerator comp_blackborder = 2
enumerator comp_kodichecker = 3
enumerator comp_forwarder = 4
enumerator comp_udplistener = 5
enumerator comp_boblightserver = 6
enumerator comp_grabber = 7
enumerator comp_v4l = 8
enumerator comp_color = 9
enumerator comp_effect = 10

unfoldable pub component_eq : Components → Components → Bool
component_eq a b = enumerator a == enumerator b

unfoldable pub component_to_id_string : Components → String
component_to_id_string comp_smoothing = "SMOOTHING"
component_to_id_string comp_blackborder = "BLACKBORDER"
component_to_id_string comp_kodichecker = "KODICHECKER"
component_to_id_string comp_forwarder = "FORWARDER"
component_to_id_string comp_udplistener = "UDPLISTENER"
component_to_id_string comp_boblightserver = "BOBLIGHTSERVER"
component_to_id_string comp_grabber = "GRABBER"
component_to_id_string comp_v4l = "V4L"
component_to_id_string comp_color = "COLOR"
component_to_id_string comp_effect = "EFFECT"
component_to_id_string comp_invalid = ""

-- `to_upper` is `QString::toUpper`.
unfoldable pub string_to_component : (String → String) → String → Components
string_to_component to_upper name =
    let s = to_upper name in
    if str_eq s "SMOOTHING"
    then comp_smoothing
    else if str_eq s "BLACKBORDER"
    then comp_blackborder
    else if str_eq s "KODICHECKER"
    then comp_kodichecker
    else if str_eq s "FORWARDER"
    then comp_forwarder
    else if str_eq s "UDPLISTENER"
    then comp_udplistener
    else if str_eq s "BOBLIGHTSERVER"
    then comp_boblightserver
    else if str_eq s "GRABBER"
    then comp_grabber
    else if str_eq s "V4L"
    then comp_v4l
    else if str_eq s "COLOR"
    then comp_color
    else if str_eq s "EFFECT"
    then comp_effect
    else comp_invalid

-- Reading back the id string of a component gives the component, for any conversion to upper case
-- that leaves the upper-case id strings as they are.
string_to_component-component_to_id_string :
    (to_upper : String → String)
    → ((c : Components) → to_upper (component_to_id_string c) ≡ component_to_id_string c)
    → (c : Components) → string_to_component to_upper (component_to_id_string c) ≡ c
unfolding component_to_id_string string_to_component
string_to_component-component_to_id_string up h comp_invalid = rw (h comp_invalid) refl
string_to_component-component_to_id_string up h comp_smoothing = rw (h comp_smoothing) refl
string_to_component-component_to_id_string up h comp_blackborder = rw (h comp_blackborder) refl
string_to_component-component_to_id_string up h comp_kodichecker = rw (h comp_kodichecker) refl
string_to_component-component_to_id_string up h comp_forwarder = rw (h comp_forwarder) refl
string_to_component-component_to_id_string up h comp_udplistener = rw (h comp_udplistener) refl
string_to_component-component_to_id_string up h comp_boblightserver =
    rw (h comp_boblightserver) refl
string_to_component-component_to_id_string up h comp_grabber = rw (h comp_grabber) refl
string_to_component-component_to_id_string up h comp_v4l = rw (h comp_v4l) refl
string_to_component-component_to_id_string up h comp_color = rw (h comp_color) refl
string_to_component-component_to_id_string up h comp_effect = rw (h comp_effect) refl
