-- ===== src/Border/Processor/Stable.antt =====
-- Short disturbances do not change the border (BlackBorderProcessor.cpp).
use hyperion_ng_beta.Prelude.{
  ℕ, ◌+◌, ◌≤◌, ◌<◌, ◌≡◌, false, List, [], ◌∷◌, arith, All, length, u32, ap, ◌∙◌,
}
use hyperion_ng_beta.Border.{BlackBorder, border_eq}
use hyperion_ng_beta.Border.Processor.{BlackBorderProcessor, update_border, feed}

-- A frame that differs from the previous border, while the bound is not passed, is only counted.
update_border_inconsistent :
    (b : BlackBorder) (s : BlackBorderProcessor)
    → border_eq b s.previous_detected_border ≡ false
    → s.inconsistent_cnt + 1 ≤ s.max_inconsistent_cnt
    → s.max_inconsistent_cnt < u32
    → update_border b s ≡ (record s { inconsistent_cnt = s.inconsistent_cnt + 1 }, false)
unfolding update_border
update_border_inconsistent b s e h m = ground arith

-- As long as the frames that differ from the previously detected border, counted from the last
-- frame that did not, are no more than the configured maximum, they change nothing but that count.
pub feed_inconsistent :
    (bs : List BlackBorder) (s : BlackBorderProcessor)
    → s.max_inconsistent_cnt < u32
    → s.inconsistent_cnt + length bs ≤ s.max_inconsistent_cnt
    → All (λ b. border_eq b s.previous_detected_border ≡ false) bs
    → feed bs s ≡ record s { inconsistent_cnt = s.inconsistent_cnt + length bs }
unfolding feed
feed_inconsistent [] s m h a = ground arith
feed_inconsistent (b ∷ bs) s m h a =
    let t : BlackBorderProcessor = record s { inconsistent_cnt = s.inconsistent_cnt + 1 } in
    rw (update_border_inconsistent b s a.0 (omega arith) m) (
      feed_inconsistent bs t m (omega arith) a.1
      ∙ ap (λ (n : ℕ). record s { inconsistent_cnt = n }) (omega arith))
