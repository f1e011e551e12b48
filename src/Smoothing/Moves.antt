-- ===== src/Smoothing/Moves.antt =====
-- The way of the colors to their target in libsrc/hyperion/LinearColorSmoothing.cpp.
use hyperion_ng_beta.Prelude.{
  ℕ, ℤ, pos, ◌-◌, ◌≡◌, ◌≤◌, ◌<◌, ◌≤ℤ◌, ◌<ℤ◌, refl, arith, ltb, ◌==◌, List, [], ◌∷◌, length, All,
  Gives, ◌⊎◌, inl, inr, Bool-cases,
}
use hyperion_ng_beta.Color.{ColorRgb, IsByteColor}
use hyperion_ng_beta.Smoothing.{Floats, move, move_color, move_all}

-- The value lies between the two ends, in either order.
abbrev pub Between : ℕ → ℕ → ℕ → Type 0
Between a b m = ((a ≤ m) × (m ≤ b)) ⊎ ((b ≤ m) × (m ≤ a))

-- The value is nearer to the second end than the first end is, not past it, or all are equal.
abbrev pub Nearer : ℕ → ℕ → ℕ → Type 0
Nearer a b m = ((a < m) × (m ≤ b)) ⊎ ((b ≤ m) × (m < a)) ⊎ ((a ≡ b) × (m ≡ b))

-- The value is the second end.
abbrev pub Arrived : ℕ → ℕ → ℕ → Type 0
Arrived a b m = m ≡ b

-- The channels of the colors of three lists, one by one, are related.
pub data Channels (P : ℕ → ℕ → ℕ → Type 0)
    : List ColorRgb → List ColorRgb → List ColorRgb → Type 0 where
  ends : Channels P [] [] []
  next :
      {a b m : ColorRgb} {as' bs ms : List ColorRgb}
      → P a.red b.red m.red
      → P a.green b.green m.green
      → P a.blue b.blue m.blue
      → Channels P as' bs ms
      → Channels P (a ∷ as') (b ∷ bs) (m ∷ ms)

module _ (f : Floats) (delta span : ℤ) where
  pub move-Between :
      (a b : ℕ)
      → pos 0 ≤ℤ delta
      → delta ≤ℤ span
      → pos 0 <ℤ span
      → a < 256
      → b < 256
      → Between a b (move f delta span a b)
  unfolding move
  move-Between a b from to moves p q =
      let up = f.share-le delta span (b - a) from to moves in
      let down = f.share-le delta span (a - b) from to moves in
      elim (Bool-cases (ltb b a)) [
        | inl e ↦ inr (ground (arith, e, down))
        | inr e ↦ inl (ground (arith, e, up))
      ]

  pub move-Nearer :
      (a b : ℕ)
      → pos 0 ≤ℤ delta
      → delta <ℤ span
      → delta ≤ℤ span
      → pos 0 <ℤ span
      → span <ℤ pos 16777216
      → a < 256
      → b < 256
      → Nearer a b (move f delta span a b)
  unfolding move
  move-Nearer a b from below to moves short p q = elim (Bool-cases (ltb b a)) [
    | inl e ↦
        let some_way =
          f.share-positive delta span (a - b) from below short (ground (arith, e)) (omega arith) in
        let all_way = f.share-le delta span (a - b) from to moves in
        inr (inl (ground (arith, e, some_way, all_way)))
    | inr e ↦ elim (Bool-cases (a == b)) [
      | inl same ↦
          let none_left = f.share-le delta span (b - a) from to moves in
          inr (inr (ground (arith, same), ground (arith, same, none_left)))
      | inr differ ↦
          let some_way =
            f.share-positive delta span (b - a) from below short (ground (arith, e, differ))
              (omega arith) in
          let all_way = f.share-le delta span (b - a) from to moves in
          inl (ground (arith, e, some_way, all_way))
    ]
  ]

  pub move-Arrived :
      (a b : ℕ)
      → delta ≡ pos 0
      → pos 0 <ℤ span
      → a < 256
      → b < 256
      → Arrived a b (move f delta span a b)
  unfolding move
  move-Arrived a b over moves p q =
      let up = f.share-whole span (b - a) moves (omega arith) in
      let down = f.share-whole span (a - b) moves (omega arith) in
      rw over (ground (arith, up, down))

  pub move_all-Gives :
      (P : ℕ → ℕ → ℕ → Type 0)
      → ((a b : ℕ) → a < 256 → b < 256 → P a b (move f delta span a b))
      → (as' bs : List ColorRgb) → All IsByteColor as'
      → All IsByteColor bs
      → length as' ≡ length bs
      → Gives (Channels P as' bs) (move_all f delta span as' bs)
  unfolding move_all move_color
  move_all-Gives P each [] [] h k e = ([], refl, ends)
  move_all-Gives P each [] (b ∷ bs) h k e = absurd (omega (arith, e))
  move_all-Gives P each (a ∷ as') [] h k e = absurd (omega (arith, e))
  move_all-Gives P each (a ∷ as') (b ∷ bs) h k e =
      let (r, er, rest) = move_all-Gives P each as' bs h.1 k.1 (omega (arith, e)) in
      let (ar, ag, ab) = h.0 in
      let (br, bg, bb) = k.0 in
      (
        _,
        rw er refl,
        next (each a.red b.red ar br) (each a.green b.green ag bg) (each a.blue b.blue ab bb) rest,
      )

pub Arrived-eq : {as' bs ms : List ColorRgb} → Channels Arrived as' bs ms → ms ≡ bs
Arrived-eq ends = refl
Arrived-eq (next x y z r) = rw (x, y, z, Arrived-eq r) refl
