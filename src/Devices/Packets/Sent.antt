-- ===== src/Devices/Packets/Sent.antt =====
-- The whole loop: what it sends for all bytes.
use hyperion_ng_beta.Prelude.{
  ℕ, suc, ◌+◌, ◌-◌, ◌*◌, ◌%◌, ◌<◌, ◌==◌, ==_iff, Bool, ◌||◌, true, false, Bool-cases, List, [], ◌∷◌,
  ◌++◌, some, length, drop, append_assoc, append_nil, ◌≡◌, inl, inr, refl, ap, ◌∙◌, arith,
}
use hyperion_ng_beta.Devices.Packets.{Format, Sending, send_bytes}
use hyperion_ng_beta.Devices.Packets.Lists.{row_mod, flatten, drop-step}
use hyperion_ng_beta.Devices.Packets.Split.{IsFormat, IsFull, packets, smaller}
use hyperion_ng_beta.Devices.Packets.Steps.{closes, keeps, length-snoc, At}

smaller_last : (m d : ℕ) → d < m → smaller m (d + 1) ≡ d + 1
smaller_last m d h = ground arith

smaller_full : (m d k : ℕ) → d + 1 ≡ m → 0 < k → smaller m (d + k) ≡ d + 1
smaller_full m d k h p = ground arith

or_true_right : (a b : Bool) → b ≡ true → (a || b) ≡ true
or_true_right true b e = refl
or_true_right false b e = e

or_false : (a b : Bool) → a ≡ false → b ≡ false → (a || b) ≡ false
or_false a b e d = rw (e, d)

not_last : (a m : ℕ) → a < m → (a + 1 == m) ≡ false → a + 1 < m
not_last a m l e = ground arith

next_row : (i q m d : ℕ) → i ≡ q * m + d → d + 1 ≡ m → i + 1 ≡ suc q * m + 0
next_row i q m d e h = grind arith

module _ (f : Format) (header : ℕ → ℕ → List ℕ) (trailer : List ℕ)
    (format : IsFormat f header trailer) where
  -- The bytes left the loop in pieces, each as a packet.
  pub record AllSent (q : ℕ) (bytes : List ℕ) (before after : List (List ℕ)) : Type 0 where
    pub pieces : List (List ℕ)
    pub packed : after ≡ before ++ packets header trailer q pieces
    pub joined : flatten pieces ≡ bytes
    pub full : IsFull f.packet_max pieces

  module _ (count : ℕ) (raw more : List ℕ) where
    pub send_bytes-AllSent :
        (rest : List ℕ) (x i q n : ℕ) (done : List ℕ) (s : Sending)
        → i ≡ q * f.packet_max + length done
        → length done < f.packet_max
        → count ≡ i + suc (length rest)
        → n ≡ smaller f.packet_max (length done + (count - i))
        → At f header trailer format q n done s
        → drop i raw ≡ x ∷ (rest ++ more)
        → (t : Sending) × (send_bytes f count raw i (suc (length rest)) s ≡ some t)
          × AllSent q (done ++ x ∷ rest) s.sent t.sent
    unfolding send_bytes
    send_bytes-AllSent [] x i q n done s e l c size a d =
        let last : (i + 1 == count) ≡ true = (==_iff _ _).1 (omega arith) in
        let one : count - i ≡ 1 = omega arith in
        let full : n ≡ length done + 1 =
          size
          ∙ ap (λ k. smaller f.packet_max (length done + k)) one
          ∙ smaller_last f.packet_max (length done) l in
        let (t, et, idle, st) =
          closes f header trailer format count raw q n i x done more s e l (omega arith) size a d
            full (rw last) in
        (
          t,
          rw et refl,
          record {
            pieces = (done ++ x ∷ []) ∷ [];
            packed = st;
            joined = append_nil _;
            full = (
              omega (arith, length-snoc done x),
              omega (arith, length-snoc done x),
              λ k. absurd (k refl),
              tt,
            );
          },
        )
    send_bytes-AllSent (y ∷ ys) x i q n done s e l c size a d =
        elim (Bool-cases (i % f.packet_max + 1 == f.packet_max)) [
          | inl z ↦
              let col = ap (λ k. k % f.packet_max) e ∙ row_mod q f.packet_max (length done) l in
              let top : length done + 1 ≡ f.packet_max = omega (arith, (==_iff _ _).0 z, col) in
              let full : n ≡ length done + 1 =
                size ∙ smaller_full f.packet_max (length done) (count - i) top (omega arith) in
              let (t, et, idle, st) =
                closes f header trailer format count raw q n i x done (y ∷ (ys ++ more)) s e l
                  (omega arith) size a d full (or_true_right _ _ z) in
              let (later, found) = drop-step raw i x (y ∷ (ys ++ more)) d in
              let (u, eu, r) =
                send_bytes-AllSent ys y (i + 1) (suc q)
                  (smaller f.packet_max (0 + (count - (i + 1)))) [] t
                  (next_row i q f.packet_max (length done) e top) (omega arith) (omega arith) refl
                  idle found in
              (
                u,
                rw et eu,
                record {
                  pieces = (done ++ x ∷ []) ∷ r.pieces;
                  packed =
                      r.packed
                      ∙ ap (λ p. p ++ packets header trailer (suc q) r.pieces) st
                      ∙ append_assoc s.sent _ _;
                  joined =
                      ap (λ p. (done ++ x ∷ []) ++ p) r.joined
                      ∙ append_assoc done (x ∷ []) (y ∷ ys);
                  full = (
                    omega (arith, length-snoc done x),
                    omega (arith, length-snoc done x),
                    λ k. omega (arith, length-snoc done x),
                    r.full,
                  );
                },
              )
          | inr z ↦
              let col = ap (λ k. k % f.packet_max) e ∙ row_mod q f.packet_max (length done) l in
              let before : (i + 1 == count) ≡ false = ground arith in
              let whole = length-snoc done x in
              let (t, et, at, st) =
                keeps f header trailer format count raw q n i x done (y ∷ (ys ++ more)) s e l
                  (omega arith) size a d (or_false _ _ before z) in
              let (later, found) = drop-step raw i x (y ∷ (ys ++ more)) d in
              let (u, eu, r) =
                send_bytes-AllSent ys y (i + 1) q n (done ++ x ∷ []) t (omega (arith, whole))
                  (omega (arith, whole, not_last (length done) f.packet_max l (rw col at z)))
                  (omega arith) (size ∙ ap (smaller f.packet_max) (omega (arith, whole))) at
                  found in
              (
                u,
                rw et eu,
                record {
                  pieces = r.pieces;
                  packed = r.packed ∙ ap (λ p. p ++ packets header trailer q r.pieces) st;
                  joined = r.joined ∙ append_assoc done (x ∷ []) (y ∷ ys);
                  full = r.full;
                },
              )
        ]
