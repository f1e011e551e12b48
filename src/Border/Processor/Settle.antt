-- ===== src/Border/Processor/Settle.antt =====
-- A border that stays becomes the current one (BlackBorderProcessor.cpp).
use Prim.Native.String.{String}
use hyperion_ng_beta.Prelude.{
  ℕ, zero, suc, ◌+◌, ◌-◌, ◌≤◌, ◌<◌, ◌≡◌, ◌⊎◌, inl, inr, Bool, true, false, List, arith, u32, ◌%◌,
  if◌then◌else◌, leb, replicate, Bool-cases, ℤ, some, OnSome-eq,
}
use hyperion_ng_beta.Border.{BlackBorder, border_eq}
use hyperion_ng_beta.Border.Processor.{
  BlackBorderProcessor, update_border, check_change, feed, init,
}
use hyperion_ng_beta.Border.Processor.Open.{
  border_eq_refl, border_eq_sym, border_eq_trans, border_eq-unknown, border_eq_both, switch_cnt,
  IsOpen, init-IsOpen, update_border-IsOpen, Event, run, run-IsOpen,
}

-- Frames still needed until the border `b` is the current one.
abbrev pub distance : BlackBorder → BlackBorderProcessor → ℕ
distance b s =
    if border_eq b s.previous_detected_border
    then switch_cnt s b - s.consistent_cnt
    else (s.max_inconsistent_cnt - s.inconsistent_cnt) + 1 + switch_cnt s b

check_change_progress :
    (b : BlackBorder) (s : BlackBorderProcessor)
    → border_eq s.current_border b ≡ false
    → (s.current_border.unknown ≡ true) ⊎ (s.consistent_cnt ≤ switch_cnt s b)
    → (border_eq (check_change b s).0.current_border b ≡ true)
      ⊎ (((check_change b s).0 ≡ s)
          × (s.consistent_cnt < switch_cnt s b)
          × (s.current_border.unknown ≡ false))
unfolding check_change
check_change_progress b s e h = ground (arith, border_eq_refl b, border_eq_both b s.current_border)

check_change_keeps :
    (b : BlackBorder) (s : BlackBorderProcessor)
    → border_eq s.current_border b ≡ true
    → border_eq (check_change b s).0.current_border b ≡ true
unfolding check_change
check_change_keeps b s e = ground arith

update_border_keeps :
    (b : BlackBorder) (s : BlackBorderProcessor)
    → border_eq s.current_border b ≡ true
    → border_eq (update_border b s).0.current_border b ≡ true
unfolding update_border
update_border_keeps b s e = elim (Bool-cases (border_eq b s.previous_detected_border)) [
  | inl p ↦ rw p (check_change_keeps b _ e)
  | inr p ↦ rw p (elim (Bool-cases (leb ((s.inconsistent_cnt + 1) % u32) s.max_inconsistent_cnt)) [
    | inl few ↦ rw few e
    | inr many ↦ rw many (check_change_keeps b _ e)
  ])
]

-- The processor can still count a frame that differs from the previous one.
abbrev HasRoom : BlackBorder → BlackBorderProcessor → Type 0
HasRoom b s = (border_eq b s.previous_detected_border ≡ true) ⊎ (s.inconsistent_cnt + 1 < u32)

abbrev Progress : BlackBorder → BlackBorderProcessor → BlackBorderProcessor → Type 0
Progress b s t =
    (border_eq t.current_border b ≡ true) ⊎ ((distance b t < distance b s) × HasRoom b t)

-- `check_change` on a processor whose previous border is the new one.
check_change-Progress :
    (b : BlackBorder) (r s : BlackBorderProcessor)
    → border_eq b s.previous_detected_border ≡ true
    → border_eq s.current_border b ≡ false
    → (s.current_border.unknown ≡ true) ⊎ (s.consistent_cnt ≤ switch_cnt s b)
    → (s.consistent_cnt < switch_cnt s b
        → s.current_border.unknown ≡ false
        → switch_cnt s b - s.consistent_cnt < distance b r)
    → Progress b r (check_change b s).0
check_change-Progress b r s p e h near = elim (check_change_progress b s e h) [
  | inl done ↦ inl done
  | inr (same, l, known) ↦ inr (rw same (rw p (near l known)), rw same (inl p))
]

-- The three branches of `updateBorder`.
abbrev as_previous : BlackBorderProcessor → BlackBorderProcessor
as_previous s = record s { consistent_cnt = (s.consistent_cnt + 1) % u32; inconsistent_cnt = 0 }

abbrev as_new : BlackBorder → BlackBorderProcessor → BlackBorderProcessor
as_new b s = record s {
  inconsistent_cnt = (s.inconsistent_cnt + 1) % u32;
  previous_detected_border = b;
  consistent_cnt = 0;
}

update_border_branch :
    (b : BlackBorder) (s : BlackBorderProcessor)
    → ((border_eq b s.previous_detected_border ≡ true)
        × (update_border b s ≡ check_change b (as_previous s)))
      ⊎ ((border_eq b s.previous_detected_border ≡ false)
          × ((s.inconsistent_cnt + 1) % u32 ≤ s.max_inconsistent_cnt)
          × (update_border b s
              ≡ (record s { inconsistent_cnt = (s.inconsistent_cnt + 1) % u32 }, false)))
      ⊎ ((border_eq b s.previous_detected_border ≡ false)
          × (s.max_inconsistent_cnt < (s.inconsistent_cnt + 1) % u32)
          × (update_border b s ≡ check_change b (as_new b s)))
unfolding update_border
update_border_branch b s = elim (Bool-cases (border_eq b s.previous_detected_border)) [
  | inl p ↦ inl (p, rw p)
  | inr p ↦ inr (elim (Bool-cases (leb ((s.inconsistent_cnt + 1) % u32) s.max_inconsistent_cnt)) [
    | inl few ↦ inl (p, ground arith, rw (p, few))
    | inr many ↦ inr (p, ground arith, rw (p, many))
  ])
]

-- Each further frame with the same border makes it the current one or brings that nearer.
update_border-Progress :
    (b : BlackBorder) (s : BlackBorderProcessor)
    → IsOpen s
    → s.max_inconsistent_cnt + 1 < u32
    → switch_cnt s b < u32
    → HasRoom b s
    → Progress b s (update_border b s).0
update_border-Progress b s o m w c = elim (Bool-cases (border_eq s.current_border b)) [
  | inl e ↦ inl (update_border_keeps b s e)
  | inr e ↦ elim (update_border_branch b s) [
    | inl (p, u) ↦
        rw u (check_change-Progress b s (as_previous s) p e (still_open p e) (nearer p e))
    | inr (inl (p, few, u)) ↦ rw u (inr (counted p few))
    | inr (inr (p, many, u)) ↦ rw u (
        check_change-Progress b s (as_new b s) (border_eq_refl b) e (inr (omega arith))
          (nearer_new p))
  ]
]
  where
    still_open :
        border_eq b s.previous_detected_border ≡ true
        → border_eq s.current_border b ≡ false
        → (s.current_border.unknown ≡ true) ⊎ ((s.consistent_cnt + 1) % u32 ≤ switch_cnt s b)
    still_open p e = ground (
      arith,
      border_eq_trans s.current_border s.previous_detected_border b,
      border_eq_sym b s.previous_detected_border,
      border_eq-unknown b s.previous_detected_border p,
    )

    nearer :
        border_eq b s.previous_detected_border ≡ true
        → border_eq s.current_border b ≡ false
        → (s.consistent_cnt + 1) % u32 < switch_cnt s b
        → s.current_border.unknown ≡ false
        → switch_cnt s b - (s.consistent_cnt + 1) % u32 < distance b s
    nearer p e l known = rw p (
        ground (
          arith,
          border_eq_trans s.current_border s.previous_detected_border b,
          border_eq_sym b s.previous_detected_border,
          border_eq-unknown b s.previous_detected_border p,
        ))

    nearer_new :
        border_eq b s.previous_detected_border ≡ false
        → 0 < switch_cnt s b
        → s.current_border.unknown ≡ false
        → switch_cnt s b - 0 < distance b s
    nearer_new p l known = rw p (omega arith)

    counted :
        border_eq b s.previous_detected_border ≡ false
        → (s.inconsistent_cnt + 1) % u32 ≤ s.max_inconsistent_cnt
        → let t : BlackBorderProcessor = record s {
          inconsistent_cnt = (s.inconsistent_cnt + 1) % u32;
        } in
          (distance b t < distance b s) × HasRoom b t
    counted p few = rw p (ground arith)

update_border_config :
    (b : BlackBorder) (s : BlackBorderProcessor)
    → ((update_border b s).0.max_inconsistent_cnt ≡ s.max_inconsistent_cnt)
      × (switch_cnt (update_border b s).0 b ≡ switch_cnt s b)
unfolding update_border check_change
update_border_config b s = ground arith

settled_keeps :
    (n : ℕ) (b : BlackBorder) (s : BlackBorderProcessor)
    → border_eq s.current_border b ≡ true
    → border_eq (feed (replicate n b) s).current_border b ≡ true
unfolding feed
settled_keeps zero b s e = e
settled_keeps (suc n) b s e = settled_keeps n b (update_border b s).0 (update_border_keeps b s e)

settle_within :
    (n : ℕ) (b : BlackBorder) (s : BlackBorderProcessor)
    → IsOpen s
    → s.max_inconsistent_cnt + 1 < u32
    → switch_cnt s b < u32
    → HasRoom b s
    → distance b s < n
    → border_eq (feed (replicate n b) s).current_border b ≡ true
unfolding feed
settle_within zero b s o m w c d = absurd (omega arith)
settle_within (suc n) b s o m w c d = elim (update_border-Progress b s o m w c) [
  | inl done ↦ settled_keeps n b (update_border b s).0 done
  | inr (less, room) ↦
      let (same_max, same_switch) = update_border_config b s in
      settle_within n b (update_border b s).0 (update_border-IsOpen b s o) (omega (arith, same_max))
        (omega (arith, same_switch)) room (omega (arith, less))
]

-- From any state that a new border processor reaches by frames and settings, a border that is
-- detected in maxInconsistentCnt + 2 frames and then in as many as its kind asks for, one after
-- the other, is the current border at the end; the configured numbers and the running count of
-- inconsistent frames are below 2^32 - 1.
pub feed-settles :
    (enable : Bool) (unknown_cnt border_cnt max_cnt blur_cnt : ℕ) (mode : String) (threshold : ℤ)
    (events : List Event) (s : BlackBorderProcessor) (b : BlackBorder)
    → run events (init enable unknown_cnt border_cnt max_cnt blur_cnt mode threshold) ≡ some s
    → s.max_inconsistent_cnt + 1 < u32
    → switch_cnt s b < u32
    → s.inconsistent_cnt + 1 < u32
    → border_eq
        (feed (replicate (s.max_inconsistent_cnt + 2 + switch_cnt s b) b) s).current_border
        b
      ≡ true
feed-settles enable u n x r mode t events s b e m w c =
    settle_within (s.max_inconsistent_cnt + 2 + switch_cnt s b) b s
      (OnSome-eq IsOpen (run events start)
        (run-IsOpen events start (init-IsOpen enable u n x r mode t)) e)
      m w (inr c) within
  where
    start : BlackBorderProcessor
    start = init enable u n x r mode t

    within : distance b s < s.max_inconsistent_cnt + 2 + switch_cnt s b
    within = ground arith
