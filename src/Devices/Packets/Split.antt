-- ===== src/Devices/Packets/Split.antt =====
-- The packets that the loop sends: the bytes of the leds, cut into pieces of the largest size.
use hyperion_ng_beta.Prelude.{
  ℕ, suc, ◌+◌, ◌-◌, ◌*◌, ◌%◌, ◌≤◌, ◌<◌, ltb, if◌then◌else◌, Bool-cases, List, [], ◌∷◌, ◌++◌, some,
  length, drop, length-append, append_nil, ◌≡◌, ◌≢◌, inl, inr, refl, sym, ap, ltb→lt, ◌∙◌, arith,
  le→leb, take-append,
}
use hyperion_ng_beta.Devices.Packets.{Format, Sending, start_packet, end_packet, put_byte}
use hyperion_ng_beta.Devices.Packets.Lists.{
  write_at-append, drop-step, row_mod, cons_of_pos, append_snoc,
}

-- What start and stop write around the bytes of a packet with index `q`.
pub record IsFormat (f : Format) (header : ℕ → ℕ → List ℕ) (trailer : List ℕ) : Type 0 where
  pub max_pos : 0 < f.packet_max
  pub header_length : (q n : ℕ) → length (header q n) ≡ f.first
  pub starts :
      (q n : ℕ) (b : List ℕ)
      → length b ≡ f.first + f.packet_max + length trailer
      → (junk : List ℕ) × (f.start (q * f.packet_max) (suc q) n b ≡ some (header q n ++ junk))
        × (length junk ≡ f.packet_max + length trailer)
  pub stops :
      (xs junk : List ℕ)
      → length trailer ≤ length junk
      → (more : List ℕ) × (f.stop (length xs) (xs ++ junk) ≡ some ((xs ++ trailer) ++ more))
        × (length more + length trailer ≡ length junk)
  pub sizes : (n : ℕ) → f.size n ≡ f.first + n + length trailer

-- All pieces but the last are of the largest size, and the last is not empty.
abbrev pub IsFull : ℕ → List (List ℕ) → Type 0
IsFull m [] = Unit
IsFull m (c ∷ cs) = (0 < length c) × (length c ≤ m) × (cs ≢ [] → length c ≡ m) × IsFull m cs

abbrev pub packets : (ℕ → ℕ → List ℕ) → List ℕ → ℕ → List (List ℕ) → List (List ℕ)
packets header trailer q [] = []
packets header trailer q (c ∷ cs) =
    ((header q (length c) ++ c) ++ trailer) ∷ packets header trailer (suc q) cs

abbrev pub smaller : ℕ → ℕ → ℕ
smaller m left = if ltb left m then left else m

packet_size :
    (count m q : ℕ)
    → q * m < count
    → (if ltb (count - q * m) m then count % m else m) ≡ smaller m (count - q * m)
packet_size count m q h = elim (Bool-cases (ltb (count - q * m) m)) [
  | inl e ↦
      let whole : count ≡ q * m + (count - q * m) = omega arith in
      rw e (ap (λ n. n % m) whole ∙ row_mod q m (count - q * m) (ltb→lt _ _ e))
  | inr e ↦ rw e refl
]

module _ (f : Format) (header : ℕ → ℕ → List ℕ) (trailer : List ℕ)
    (format : IsFormat f header trailer) where
  -- In front of a packet, and behind the first `done` bytes of one of `n` bytes.
  pub record Idle (q : ℕ) (s : Sending) : Type 0 where
    pub room : length s.buffer ≡ f.first + f.packet_max + length trailer
    pub numbered : s.packet_number ≡ suc q

  pub record Open (q n : ℕ) (done : List ℕ) (s : Sending) : Type 0 where
    pub junk : List ℕ
    pub content : s.buffer ≡ (header q n ++ done) ++ junk
    pub room : length junk + length done ≡ f.packet_max + length trailer
    pub bytes : s.packet_bytes ≡ n
    pub numbered : s.packet_number ≡ suc (suc q)

  module _ (count : ℕ) (raw : List ℕ) where
    pub start_packet-Open :
        (q : ℕ) (s : Sending)
        → q * f.packet_max < count
        → Idle q s
        → (t : Sending) × (start_packet f count raw (q * f.packet_max) s ≡ some t)
          × Open q (smaller f.packet_max (count - q * f.packet_max)) [] t
          × (t.sent ≡ s.sent)
    unfolding start_packet
    start_packet-Open q s h idle =
        let left = count - q * f.packet_max in
        let size = packet_size count f.packet_max q h in
        let (junk, e, l) = format.starts q (smaller f.packet_max left) s.buffer idle.room in
        (
          record s {
            buffer = header q (smaller f.packet_max left) ++ junk;
            packet_bytes = smaller f.packet_max left;
            packet_number = s.packet_number + 1;
          },
          rw (size, idle.numbered, e) refl,
          record {
            junk = junk;
            content = ap (λ l. l ++ junk) (sym (append_nil _));
            room = omega (arith, l);
            bytes = refl;
            numbered = omega (arith, idle.numbered);
          },
          refl,
        )

    pub put_byte-Open :
        (q n i x : ℕ) (done rest : List ℕ) (s : Sending)
        → drop i raw ≡ x ∷ rest
        → i % f.packet_max ≡ length done
        → length done < f.packet_max
        → Open q n done s
        → (t : Sending) × (put_byte f count raw i s ≡ some t)
          × Open q n (done ++ x ∷ []) t
          × (t.sent ≡ s.sent)
    unfolding put_byte
    put_byte-Open q n i x done rest s d m l o =
        let (found, later) = drop-step raw i x rest d in
        let (y, ys, e) = cons_of_pos o.junk (omega (arith, o.room, format.max_pos)) in
        let begun = header q n ++ done in
        let at : f.first + i % f.packet_max ≡ length begun =
          omega (arith, m, length-append (header q n) done, format.header_length q n) in
        (
          record s { buffer = begun ++ x ∷ ys },
          rw (found, at, o.content, e) (rw (write_at-append begun ys y x) refl),
          record {
            junk = ys;
            content = append_snoc (header q n) done ys x;
            room =
                omega (arith, o.room, ap (λ (l : List ℕ). length l) e, length-append done (x ∷ []));
            bytes = o.bytes;
            numbered = o.numbered;
          },
          refl,
        )

    pub end_packet-Idle :
        (q i : ℕ) (done : List ℕ) (s : Sending)
        → i % f.packet_max + 1 ≡ length done
        → length done ≤ f.packet_max
        → Open q (length done) done s
        → (t : Sending) × (end_packet f count raw i s ≡ some t)
          × Idle (suc q) t
          × (t.sent ≡ s.sent ++ ((header q (length done) ++ done) ++ trailer) ∷ [])
    unfolding end_packet
    end_packet-Idle q i done s m l o =
        let begun = header q (length done) ++ done in
        let size = length-append (header q (length done)) done in
        let head = format.header_length q (length done) in
        let at : f.first + i % f.packet_max + 1 ≡ length begun = omega (arith, m, size, head) in
        let (more, e, room) = format.stops begun o.junk (omega (arith, o.room)) in
        let whole = length-append begun trailer in
        let sent : f.size s.packet_bytes ≡ length (begun ++ trailer) =
          rw o.bytes (omega (arith, format.sizes (length done), size, head, whole)) in
        let inside =
          le→leb (length (begun ++ trailer)) (length ((begun ++ trailer) ++ more))
            (omega (arith, length-append (begun ++ trailer) more)) in
        (
          record s {
            buffer = (begun ++ trailer) ++ more;
            sent = s.sent ++ (begun ++ trailer) ∷ [];
          },
          rw (at, o.content, e, sent, inside, take-append (begun ++ trailer) more) refl,
          record {
            room =
                omega
                  (arith, length-append (begun ++ trailer) more, whole, size, head, room, o.room);
            numbered = o.numbered;
          },
          refl,
        )
