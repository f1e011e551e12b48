-- ===== src/Devices/Packets/Lists.antt =====
-- Lists for the buffers of packets.
use hyperion_ng_beta.Prelude.{
  ℕ, zero, suc, ◌+◌, ◌*◌, ◌%◌, ◌<◌, List, [], ◌∷◌, ◌++◌, some, get_elem?, length, drop,
  length-append, append_assoc, ◌≡◌, refl, ap, ◌∙◌, arith, lt→ltb, set-append,
}
use native.Mathlib.Nat.{mod-eq_of_lt, mul-add-mod_self_right}
use hyperion_ng_beta.Devices.Packets.{write_at}

pub write_at-append :
    (xs ys : List ℕ) (y v : ℕ) → write_at (xs ++ y ∷ ys) (length xs) v ≡ some (xs ++ v ∷ ys)
unfolding write_at
write_at-append xs ys y v =
    let inside =
      lt→ltb (length xs) (length (xs ++ y ∷ ys)) (omega (arith, length-append xs (y ∷ ys))) in
    rw inside (ap some (set-append xs ys y v))

pub drop-step :
    (raw : List ℕ) (i x : ℕ) (rest : List ℕ)
    → drop i raw ≡ x ∷ rest
    → (get_elem? raw i ≡ some x) × (drop (i + 1) raw ≡ rest)
drop-step [] zero x rest e = cc
drop-step [] (suc i) x rest e = cc
drop-step (y ∷ raw) zero x rest e = (cc, cc)
drop-step (y ∷ raw) (suc i) x rest e =
    let (found, later) = drop-step raw i x rest e in
    let next : suc i + 1 ≡ suc (i + 1) = omega arith in (found, rw next later)

pub row_mod : (q m j : ℕ) → j < m → (q * m + j) % m ≡ j
row_mod q m j h = mul-add-mod_self_right q m j ∙ mod-eq_of_lt h

-- The lists of a list, one after the other.
abbrev pub flatten : List (List ℕ) → List ℕ
flatten [] = []
flatten (c ∷ cs) = c ++ flatten cs

pub cons_of_pos : (l : List ℕ) → 0 < length l → (y : ℕ) × (ys : List ℕ) × (l ≡ y ∷ ys)
cons_of_pos [] h = absurd (omega arith)
cons_of_pos (y ∷ ys) h = (y, ys, refl)

pub append_snoc : (h d ys : List ℕ) (x : ℕ) → (h ++ d) ++ x ∷ ys ≡ (h ++ (d ++ x ∷ [])) ++ ys
append_snoc h d ys x = simp (append_assoc)
