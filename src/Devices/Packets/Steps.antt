-- ===== src/Devices/Packets/Steps.antt =====
-- One byte of the loop that splits bytes into packets.
use hyperion_ng_beta.Prelude.{
  ℕ, suc, ◌+◌, ◌-◌, ◌*◌, ◌%◌, ◌<◌, ◌==◌, ==_iff, ◌||◌, true, false, if◌then◌else◌, List, [], ◌∷◌,
  ◌++◌, some, length, drop, length-append, ◌≡◌, refl, sym, ap, subst, ◌∙◌, arith,
}
use hyperion_ng_beta.Devices.Packets.{Format, Sending, start_packet, send_byte}
use hyperion_ng_beta.Devices.Packets.Lists.{row_mod}
use hyperion_ng_beta.Devices.Packets.Split.{
  IsFormat, smaller, Idle, Open, start_packet-Open, put_byte-Open, end_packet-Idle,
}

suc_ne_zero : (a k : ℕ) → a ≡ suc k → (a == 0) ≡ false
suc_ne_zero a k e = ground arith

pub length-snoc : (d : List ℕ) (x : ℕ) → length (d ++ x ∷ []) ≡ length d + 1
length-snoc d x = length-append d (x ∷ [])

module _ (f : Format) (header : ℕ → ℕ → List ℕ) (trailer : List ℕ)
    (format : IsFormat f header trailer) where
  -- In front of a byte: no packet is begun, or one that has some bytes.
  abbrev pub At : ℕ → ℕ → List ℕ → Sending → Type 0
  At q n [] s = Idle f header trailer format q s
  At q n (x ∷ d) s = Open f header trailer format q n (x ∷ d) s

  At-snoc :
      (q n x : ℕ) (d : List ℕ) (s : Sending)
      → Open f header trailer format q n (d ++ x ∷ []) s
      → At q n (d ++ x ∷ []) s
  At-snoc q n x [] s o = o
  At-snoc q n x (y ∷ d) s o = o

  module _ (count : ℕ) (raw : List ℕ) where
    opened :
        (q n i : ℕ) (done : List ℕ) (s : Sending)
        → i ≡ q * f.packet_max + length done
        → length done < f.packet_max
        → i < count
        → n ≡ smaller f.packet_max (length done + (count - i))
        → At q n done s
        → (t : Sending) × ((if i % f.packet_max == 0 then start_packet f count raw i s else some s)
            ≡ some t)
          × Open f header trailer format q n done t
          × (t.sent ≡ s.sent)
    opened q n i [] s e l h size idle =
        let at : i ≡ q * f.packet_max = omega arith in
        let m : (i % f.packet_max == 0) ≡ true =
          (==_iff _ _).1 (ap (λ k. k % f.packet_max) e ∙ row_mod q f.packet_max 0 l) in
        let (t, et, o, st) =
          start_packet-Open f header trailer format count raw q s (omega arith) idle in
        let same : smaller f.packet_max (count - q * f.packet_max) ≡ n =
          ap (smaller f.packet_max) (omega arith) ∙ sym size in
        (t, rw m (rw at et), subst (λ k. Open f header trailer format q k [] t) same o, st)
    opened q n i (x ∷ d) s e l h size o =
        let m : (i % f.packet_max == 0) ≡ false =
          suc_ne_zero _ _
            (ap (λ k. k % f.packet_max) e ∙ row_mod q f.packet_max (suc (length d)) l) in
        (s, rw m refl, o, refl)

    module _ (q n i x : ℕ) (done rest : List ℕ) (s : Sending)
        (e : i ≡ q * f.packet_max + length done) (l : length done < f.packet_max) (h : i < count)
        (size : n ≡ smaller f.packet_max (length done + (count - i))) (a : At q n done s)
        (d : drop i raw ≡ x ∷ rest) where
      rest_of_packet : i % f.packet_max ≡ length done
      rest_of_packet = ap (λ k. k % f.packet_max) e ∙ row_mod q f.packet_max (length done) l

      -- The packet is complete, and is sent.
      pub closes :
          n ≡ length done + 1
          → ((i + 1 == count) || (i % f.packet_max + 1 == f.packet_max)) ≡ true
          → (t : Sending) × (send_byte f count raw i s ≡ some t)
            × Idle f header trailer format (suc q) t
            × (t.sent
                ≡ s.sent
                  ++ ((header q (length (done ++ x ∷ [])) ++ (done ++ x ∷ [])) ++ trailer) ∷ [])
      unfolding send_byte
      closes full last =
          let (t1, e1, o1, s1) = opened q n i done s e l h size a in
          let (t2, e2, o2, s2) =
            put_byte-Open f header trailer format count raw q n i x done rest t1 d rest_of_packet l
              o1 in
          let whole = length-snoc done x in
          let (t3, e3, idle, s3) =
            end_packet-Idle f header trailer format count raw q i (done ++ x ∷ []) t2
              (omega (arith, whole, rest_of_packet)) (omega (arith, whole))
              (subst (λ k. Open f header trailer format q k (done ++ x ∷ []) t2)
                (omega (arith, whole, full)) o2) in
          (
            t3,
            rw (e1, e2, last) e3,
            idle,
            s3
                ∙ ap
                    (λ p.
                      p
                      ++ ((header q (length (done ++ x ∷ [])) ++ (done ++ x ∷ [])) ++ trailer) ∷ [])
                    (s2 ∙ s1),
          )

      -- The packet has room for more.
      pub keeps :
          ((i + 1 == count) || (i % f.packet_max + 1 == f.packet_max)) ≡ false
          → (t : Sending) × (send_byte f count raw i s ≡ some t)
            × At q n (done ++ x ∷ []) t
            × (t.sent ≡ s.sent)
      unfolding send_byte
      keeps more =
          let (t1, e1, o1, s1) = opened q n i done s e l h size a in
          let (t2, e2, o2, s2) =
            put_byte-Open f header trailer format count raw q n i x done rest t1 d rest_of_packet l
              o1 in
          (t2, rw (e1, e2, more) refl, At-snoc q n x done t2 o2, s2 ∙ s1)
