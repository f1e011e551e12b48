-- ===== src/Components/Tests.antt =====
-- The id strings of include/utils/Components.h on an example.
use hyperion_ng_beta.Prelude.{◌≡◌, refl}
use hyperion_ng_beta.Components.{comp_v4l, component_to_id_string, string_to_component}

reads_back_id : string_to_component (λ s. s) (component_to_id_string comp_v4l) ≡ comp_v4l
unfolding string_to_component component_to_id_string
reads_back_id = refl
