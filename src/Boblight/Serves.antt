-- ===== src/Boblight/Serves.antt =====
-- A client of the Boblight server (libsrc/boblightserver/BoblightClientConnection.cpp) does the core no
-- harm, whatever it sends, and takes its channel away when it closes.
use hyperion_ng_beta.Prelude.{
  ℕ, ℤ, negsuc, ◌+◌, ◌-◌, ◌==◌, ltb, ltb_ℤ, eqb_ℤ, Bool, true, false, ◌&&◌, if◌then◌else◌, List, [],
  ◌∷◌, ◌++◌, Option, none, some, length, length-set, set, codes, eq_bytes, Gives, Gives-bind,
  Gives-if, ◌≡◌, refl, ◌∙◌, arith, inl, inr, Option-cases,
}
use hyperion_ng_beta.Color.{ColorRgb}
use hyperion_ng_beta.Components.{comp_invalid}
use hyperion_ng_beta.Muxer.{lowest_priority}
use hyperion_ng_beta.Adjust.Doubles.{Doubles}
use hyperion_ng_beta.Leds.Led.{Fractions}
use hyperion_ng_beta.Core.Sources
use hyperion_ng_beta.Core.Operations.{set_colors-IsValid, clear-IsValid}
use hyperion_ng_beta.Boblight.Text.{Numerals, trimmed, split, read_color, replace_comma}
use hyperion_ng_beta.Boblight.Connection.{
  Times, Connection, Reply, hello, ping, receive, send, send_light_message, send_colors,
  clear_channel, set_priority, retry_red, set_rgb, set_color_of, set_light, handle_get, handle_set,
  handle_parts, handle_message, handle_all, read_data,
}
use hyperion_ng_beta.Boblight.Lines.{IsOneLine, read_messages-IsOneLine}

module _ (d : Doubles) (f : Fractions) where
  -- A valid core, and a color for each of its `n` leds.
  pub record IsValid (n : ℕ) (s : Connection d f) : Type 0 where
    pub core : Sources.IsValid d f n s.hyperion
    pub sized : length s.led_colors ≡ n

  module _ (n : ℕ) where
    send_colors-IsValid :
        (t : Times) (s : Connection d f) → IsValid n s → Gives (IsValid n) (send_colors d f t s)
    unfolding send_colors ltb_ℤ
    send_colors-IsValid t s v =
        Gives-if (IsValid n) (ltb_ℤ s.priority lowest_priority) _ _
          (λ _.
            Gives-bind (Sources.IsValid d f n) (IsValid n) _ _
              (set_colors-IsValid d f n t.now t.now_update t.later s.priority s.led_colors
                (negsuc 0) true comp_invalid s.hyperion v.sized (λ _. refl) v.core)
              (λ h w. (_, refl, record { core = w; sized = v.sized })))
          (λ _. (s, refl, v))

    clear_channel-IsValid :
        (t : Times) (s : Connection d f) → IsValid n s → Gives (IsValid n) (clear_channel d f t s)
    unfolding clear_channel
    clear_channel-IsValid t s v =
        Gives-if (IsValid n) (ltb_ℤ s.priority lowest_priority) _ _
          (λ _.
            Gives-bind (Sources.IsValid d f n) (IsValid n) _ _
              (clear-IsValid d f n t.now t.later s.priority s.hyperion v.core)
              (λ h w. (_, refl, record { core = w; sized = v.sized })))
          (λ _. (s, refl, v))

    set_priority-IsValid :
        (t : Times) (p : ℤ) (s : Connection d f)
        → IsValid n s
        → Gives (IsValid n) (set_priority d f t p s)
    unfolding set_priority
    set_priority-IsValid t p s v =
        Gives-if (IsValid n) (eqb_ℤ p s.priority) _ _ (λ _. (s, refl, v))
          (λ _.
            Gives-bind (IsValid n) (IsValid n) _ _ (clear_channel-IsValid t s v)
              (λ u w. (_, refl, record { core = w.core; sized = w.sized })))

    retry_red-IsValid :
        (x : Option ℤ) (s : Connection d f) → IsValid n s → IsValid n (retry_red d f x s)
    unfolding retry_red
    retry_red-IsValid (some x) s v = v
    retry_red-IsValid none s v = record { core = v.core; sized = v.sized }

    set_rgb-IsValid :
        (t : Times) (i : ℕ) (c : ColorRgb) (s : Connection d f)
        → IsValid n s
        → Gives (IsValid n) (set_rgb d f t i c s)
    unfolding set_rgb
    set_rgb-IsValid t i c s v =
        let u : Connection d f = record s { led_colors = set s.led_colors i c } in
        let w : IsValid n u = record {
          core = v.core;
          sized = length-set s.led_colors i c ∙ v.sized;
        } in
        Gives-if (IsValid n) (i == length s.led_colors - 1) _ _ (λ _. send_colors-IsValid t u w)
          (λ _. (u, refl, w))

    set_color_of-IsValid :
        (c : Option ColorRgb) (t : Times) (i : ℕ) (s : Connection d f)
        → IsValid n s
        → Gives (IsValid n) (set_color_of d f c t i s)
    unfolding set_color_of
    set_color_of-IsValid none t i s v = (s, refl, v)
    set_color_of-IsValid (some c) t i s v = set_rgb-IsValid t i c s v

    set_light-IsValid :
        (m : Numerals) (t : Times) (i : ℕ) (parts : List (List ℕ)) (s : Connection d f)
        → IsValid n s
        → Gives (IsValid n) (set_light d f m t i parts s)
    unfolding set_light
    set_light-IsValid m t i [] s v = (s, refl, v)
    set_light-IsValid m t i (k ∷ []) s v = (s, refl, v)
    set_light-IsValid m t i (k ∷ r ∷ []) s v = (s, refl, v)
    set_light-IsValid m t i (k ∷ r ∷ g ∷ []) s v = (s, refl, v)
    set_light-IsValid m t i (k ∷ r ∷ g ∷ b ∷ x ∷ xs) s v = (s, refl, v)
    set_light-IsValid m t i (k ∷ r ∷ g ∷ b ∷ []) s v =
        Gives-if (IsValid n) (eq_bytes k (codes "rgb")) _ _
          (λ _.
            set_color_of-IsValid (read_color m r g b) t i _
              (retry_red-IsValid (m.times_255 (replace_comma r)) s v))
          (λ _. (s, refl, v))

    handle_set-IsValid :
        (m : Numerals) (t : Times) (parts : List (List ℕ)) (s : Connection d f)
        → IsValid n s
        → Gives (IsValid n) (handle_set d f m t parts s)
    unfolding handle_set
    handle_set-IsValid m t [] s v = (s, refl, v)
    handle_set-IsValid m t (what ∷ []) s v = (s, refl, v)
    handle_set-IsValid m t (what ∷ number ∷ parts) s v =
        Gives-if (IsValid n) (ltb 0 (length parts) && eq_bytes what (codes "light")) _ _
          (λ _. elim (Option-cases (m.to_uint number)) [
            | inl absent ↦ rw absent (s, refl, v)
            | inr (i, read) ↦ rw read (
                Gives-if (IsValid n) (ltb i (length s.led_colors)) _ _
                  (λ _. set_light-IsValid m t i parts s v) (λ _. (s, refl, v)))
          ])
          (λ _.
            Gives-if (IsValid n) (length parts == 0 && eq_bytes what (codes "priority")) _ _
              (λ _. elim (Option-cases (m.to_int number)) [
                | inl absent ↦ rw absent (s, refl, v)
                | inr (p, read) ↦ rw read (set_priority-IsValid t p s v)
              ])
              (λ _. (s, refl, v)))

    send-IsValid :
        (r : List (Reply f)) (s : Connection d f) → IsValid n s → IsValid n (send d f r s)
    unfolding send
    send-IsValid r s v = record { core = v.core; sized = v.sized }

    if-IsValid :
        (b : Bool) (s t : Connection d f)
        → IsValid n s
        → IsValid n t
        → IsValid n (if b then s else t)
    if-IsValid true s t v w = v
    if-IsValid false s t v w = w

    handle_get-IsValid :
        (parts : List (List ℕ)) (s : Connection d f)
        → IsValid n s
        → IsValid n (handle_get d f parts s)
    unfolding handle_get send_light_message
    handle_get-IsValid [] s v = v
    handle_get-IsValid (what ∷ parts) s v =
        if-IsValid (eq_bytes what (codes "version")) _ _ (send-IsValid _ s v)
          (if-IsValid (eq_bytes what (codes "lights")) _ _ (send-IsValid _ s v) v)

    handle_parts-IsValid :
        (m : Numerals) (t : Times) (parts : List (List ℕ)) (s : Connection d f)
        → IsValid n s
        → Gives (IsValid n) (handle_parts d f m t parts s)
    unfolding handle_parts
    handle_parts-IsValid m t [] s v = (s, refl, v)
    handle_parts-IsValid m t (command ∷ parts) s v =
        Gives-if (IsValid n) (eq_bytes command (codes "hello")) _ _
          (λ _. (_, refl, send-IsValid (hello ∷ []) s v))
          (λ _.
            Gives-if (IsValid n) (eq_bytes command (codes "ping")) _ _
              (λ _. (_, refl, send-IsValid (ping ∷ []) s v))
              (λ _.
                Gives-if (IsValid n) (eq_bytes command (codes "get")) _ _
                  (λ _. (_, refl, handle_get-IsValid parts s v))
                  (λ _.
                    Gives-if (IsValid n) (eq_bytes command (codes "set")) _ _
                      (λ _. handle_set-IsValid m t parts s v)
                      (λ _.
                        Gives-if (IsValid n) (eq_bytes command (codes "sync")) _ _
                          (λ _. send_colors-IsValid t s v) (λ _. (s, refl, v))))))

    handle_all-IsValid :
        (m : Numerals) (times : ℕ → Times) (k : ℕ) (ms : List (List ℕ)) (s : Connection d f)
        → IsValid n s
        → Gives (IsValid n) (handle_all d f m times k ms s)
    unfolding handle_all handle_message
    handle_all-IsValid m times k [] s v = (s, refl, v)
    handle_all-IsValid m times k (x ∷ ms) s v =
        Gives-bind (IsValid n) (IsValid n) _ _
          (handle_parts-IsValid m (times k) (split (trimmed x)) s v)
          (λ u w. handle_all-IsValid m times (k + 1) ms u w)

    read_data-IsValid :
        (m : Numerals) (times : ℕ → Times) (received : List ℕ) (s : Connection d f)
        → IsValid n s
        → Gives (IsValid n) (read_data d f m times received s)
    unfolding read_data
    read_data-IsValid m times received s v =
        Gives-bind (λ r. IsOneLine r.1) (IsValid n) _ _
          (read_messages-IsOneLine _ (s.receive_buffer ++ received) (omega arith))
          (λ r _. handle_all-IsValid m times 0 r.0 _ (record { core = v.core; sized = v.sized }))

    -- Whatever bytes a Boblight client sends, in whatever pieces and at whatever times, the loop
    -- of readData ends on every piece, no exception is thrown in the core, the core stays valid,
    -- and the connection keeps one color for each led, if so it was before.
    pub receive-IsValid :
        (m : Numerals) (data_times : List ((ℕ → Times) × List ℕ)) (s : Connection d f)
        → IsValid n s
        → Gives (IsValid n) (receive d f m data_times s)
    unfolding receive
    receive-IsValid m [] s v = (s, refl, v)
    receive-IsValid m ((times, received) ∷ more) s v =
        Gives-bind (IsValid n) (IsValid n) _ _ (read_data-IsValid m times received s v)
          (λ u w. receive-IsValid m more u w)
