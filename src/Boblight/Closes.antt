-- ===== src/Boblight/Closes.antt =====
-- A connection of libsrc/boblightserver/BoblightClientConnection.cpp that closes, or goes to another
-- channel, takes its channel away.
use hyperion_ng_beta.Prelude.{ℕ, ℤ, ltb_ℤ, eqb_ℤ, true, false, none, Gives, ◌≡◌, refl}
use hyperion_ng_beta.Muxer.{lowest_priority, get_input_info}
use hyperion_ng_beta.Adjust.Doubles.{Doubles}
use hyperion_ng_beta.Leds.Led.{Fractions}
use hyperion_ng_beta.Core.Clear.{clear-Without}
use hyperion_ng_beta.Boblight.Connection.{
  Times, Connection, clear_channel, socket_closed, set_priority,
}
use hyperion_ng_beta.Boblight.Serves.{IsValid}

module _ (d : Doubles) (f : Fractions) where
  clear_channel-gone :
      (n : ℕ) (t : Times) (s : Connection d f)
      → ltb_ℤ s.priority lowest_priority ≡ true
      → IsValid d f n s
      → Gives
          (λ (u : Connection d f).
            IsValid d f n u × (get_input_info u.hyperion.muxer s.priority ≡ none))
          (clear_channel d f t s)
  unfolding clear_channel
  clear_channel-gone n t s low v =
      let (h, given, w) = clear-Without d f n t.now t.later s.priority s.hyperion low v.core in
      rw (low, given) (_, refl, (record { core = w.0; sized = v.sized }, w.1))

  socket_closed-gone :
      (n : ℕ) (t : Times) (s : Connection d f)
      → ltb_ℤ s.priority lowest_priority ≡ true
      → IsValid d f n s
      → Gives
          (λ (u : Connection d f).
            IsValid d f n u
            × (get_input_info u.hyperion.muxer s.priority ≡ none)
            × (u.priority ≡ lowest_priority))
          (socket_closed d f t s)
  unfolding socket_closed
  socket_closed-gone n t s low v =
      let (u, given, w) = clear_channel-gone n t s low v in
      rw (low, given) (_, refl, (record { core = w.0.core; sized = w.0.sized }, w.1, refl))

  set_priority-gone :
      (n : ℕ) (t : Times) (p : ℤ) (s : Connection d f)
      → ltb_ℤ s.priority lowest_priority ≡ true
      → eqb_ℤ p s.priority ≡ false
      → IsValid d f n s
      → Gives
          (λ (u : Connection d f).
            IsValid d f n u
            × (get_input_info u.hyperion.muxer s.priority ≡ none)
            × (u.priority ≡ p))
          (set_priority d f t p s)
  unfolding set_priority
  set_priority-gone n t p s low other v =
      let (u, given, w) = clear_channel-gone n t s low v in
      rw (other, given) (_, refl, (record { core = w.0.core; sized = w.0.sized }, w.1, refl))

  -- For a valid core and a connection on a channel below the lowest one: when the socket closes,
  -- and when the client sets another priority, no exception is thrown, the channel of the
  -- connection is gone from the muxer, the core stays valid, and the connection has the lowest
  -- priority or the new one.
  pub leaves-gone :
      (n : ℕ) (t : Times) (p : ℤ) (s : Connection d f)
      → ltb_ℤ s.priority lowest_priority ≡ true
      → eqb_ℤ p s.priority ≡ false
      → IsValid d f n s
      → Gives
          (λ (u : Connection d f).
            IsValid d f n u
            × (get_input_info u.hyperion.muxer s.priority ≡ none)
            × (u.priority ≡ lowest_priority))
          (socket_closed d f t s)
        × Gives
            (λ (u : Connection d f).
              IsValid d f n u
              × (get_input_info u.hyperion.muxer s.priority ≡ none)
              × (u.priority ≡ p))
            (set_priority d f t p s)
  leaves-gone n t p s low other v =
      (socket_closed-gone n t s low v, set_priority-gone n t p s low other v)
