-- ===== src/Smoothing/Queue.antt =====
-- The delay queue of libsrc/hyperion/LinearColorSmoothing.cpp.
use Prim.Native.Nat.{min}
use hyperion_ng_beta.Prelude.{
  ℕ, zero, suc, ◌+◌, ◌≡◌, ◌≤◌, ◌<◌, refl, sym, ap, subst, ◌∙◌, arith, Bool, true, if◌then◌else◌,
  ltb, ◌==◌, List, [], ◌∷◌, ◌++◌, map, length, length-append, append_nil, append_assoc, replicate,
  Bool-cases, inl, inr,
}
use hyperion_ng_beta.Color.{ColorRgb, black}
use hyperion_ng_beta.Smoothing.{
  LinearColorSmoothing, queue_colors, pop_queue, push_queue, rotate, switch_off,
}

-- The frames given one after another, with writing on.
abbrev pub queue_all : List (List ColorRgb) → LinearColorSmoothing → LinearColorSmoothing
queue_all [] s = s
queue_all (x ∷ xs) s = queue_all xs (queue_colors x s)

-- What has been given so far: written, or still in the queue.
abbrev pub given : LinearColorSmoothing → List (List ColorRgb)
given s = s.writes ++ s.output_queue

-- One frame: it joins what has been given, and the queue is as long as the delay allows.
record Queued (x : List ColorRgb) (s t : LinearColorSmoothing) : Type 0 where
  pub all : given t ≡ given s ++ x ∷ []
  pub size : length t.output_queue ≡ min s.output_delay (length s.output_queue + 1)
  pub enable : t.write_to_leds_enable ≡ true
  pub delay : t.output_delay ≡ s.output_delay

length_zero {ℓ} : {A : Type ℓ} (l : List A) → length l ≡ 0 → l ≡ []
length_zero [] e = refl
length_zero (x ∷ l) e = absurd (omega arith)

-- The front is popped if the queue is longer than the delay.
abbrev Popped :
    List ColorRgb → List (List ColorRgb) → LinearColorSmoothing → LinearColorSmoothing → Type 0
Popped a r s t =
    (given t ≡ s.writes ++ a ∷ r)
    × (length t.output_queue
        ≡ (if ltb s.output_delay (length (a ∷ r)) then length r else length r + 1))
    × (t.write_to_leds_enable ≡ true)
    × (t.output_delay ≡ s.output_delay)

pop_queue-Popped :
    (a : List ColorRgb) (r : List (List ColorRgb)) (s : LinearColorSmoothing)
    → s.write_to_leds_enable ≡ true
    → Popped a r s (pop_queue (a ∷ r) (record s { output_queue = a ∷ r }))
unfolding pop_queue
pop_queue-Popped a r s w = elim (Bool-cases (ltb s.output_delay (length (a ∷ r)))) [
  | inl long ↦ rw long (append_assoc s.writes (a ∷ []) r, refl, w, refl)
  | inr short ↦ rw (short, w) (refl, omega arith, refl, refl)
]

pop_queue-Queued :
    (x : List ColorRgb) (s : LinearColorSmoothing) (q : List (List ColorRgb))
    → s.output_queue ≡ q
    → s.write_to_leds_enable ≡ true
    → length q ≤ s.output_delay
    → 0 < s.output_delay
    → Queued x s (pop_queue (q ++ x ∷ []) (record s { output_queue = q ++ x ∷ [] }))
pop_queue-Queued x s [] e w h d =
    let (all, size, enable, delay) = pop_queue-Popped x [] s w in
    record {
      all = all ∙ rw (e, append_nil s.writes) refl;
      size = rw e (ground (arith, size));
      enable = enable;
      delay = delay;
    }
pop_queue-Queued x s (a ∷ q) e w h d =
    let (all, size, enable, delay) = pop_queue-Popped a (q ++ x ∷ []) s w in
    record {
      all = all ∙ rw e (sym (append_assoc s.writes (a ∷ q) (x ∷ [])));
      size = rw e (ground (arith, size, length-append q (x ∷ [])));
      enable = enable;
      delay = delay;
    }

push_queue_on :
    (x : List ColorRgb) (s : LinearColorSmoothing)
    → s.write_to_leds_enable ≡ true
    → push_queue x s ≡ s.output_queue ++ x ∷ []
unfolding push_queue
push_queue_on x s w = rw w refl

-- Without a delay the colors are written at once.
written_at_once :
    (x : List ColorRgb) (s : LinearColorSmoothing)
    → s.write_to_leds_enable ≡ true
    → s.output_queue ≡ []
    → s.output_delay ≡ 0
    → Queued x s (record s { writes = s.writes ++ x ∷ [] })
written_at_once x s w e d = record {
  all = rw (e, append_nil s.writes) (append_nil (s.writes ++ x ∷ []));
  size = rw e (omega (arith, d));
  enable = w;
  delay = refl;
}

if_true {ℓ} : {A : Type ℓ} (b : Bool) (x y : A) → b ≡ true → (if b then x else y) ≡ x
if_true b x y e = rw e refl

queue_colors-Queued :
    (x : List ColorRgb) (s : LinearColorSmoothing)
    → s.write_to_leds_enable ≡ true
    → length s.output_queue ≤ s.output_delay
    → Queued x s (queue_colors x s)
unfolding queue_colors
queue_colors-Queued x s w h = elim (Bool-cases (s.output_delay == 0)) [
  | inl none_delay ↦
      let empty = length_zero s.output_queue (ground arith) in
      rw none_delay (
        subst (Queued x s)
          (sym (if_true s.write_to_leds_enable (record s { writes = s.writes ++ x ∷ [] }) s w))
          (written_at_once x s w empty (ground arith)))
  | inr some_delay ↦
      rw (some_delay, push_queue_on x s w)
        (pop_queue-Queued x s s.output_queue refl w h (ground arith))
]

-- With writing on, and a queue that is no longer than the delay: after any frames, what has been
-- written and what is still in the queue are, in order, what was written and queued before and the
-- frames, and the queue is as long as the delay, or shorter if fewer frames were given.
pub queue_all_lem :
    (xs : List (List ColorRgb)) (s : LinearColorSmoothing)
    → s.write_to_leds_enable ≡ true
    → length s.output_queue ≤ s.output_delay
    → (given (queue_all xs s) ≡ given s ++ xs)
      × (length (queue_all xs s).output_queue
          ≡ min s.output_delay (length s.output_queue + length xs))
queue_all_lem [] s w h = (sym (append_nil (given s)), ground arith)
queue_all_lem (x ∷ xs) s w h =
    let q = queue_colors-Queued x s w h in
    let (all, size) =
      queue_all_lem xs (queue_colors x s) q.enable (omega (arith, q.size, q.delay)) in
    (all ∙ rw q.all (append_assoc (given s) (x ∷ []) xs), omega (arith, size, q.size, q.delay))

replicate_snoc {ℓ} : {A : Type ℓ} (n : ℕ) (v : A) → replicate n v ++ v ∷ [] ≡ replicate (suc n) v
replicate_snoc zero v = refl
replicate_snoc (suc n) v = ap (λ l. v ∷ l) (replicate_snoc n v)

rotate_lem :
    (v : List ColorRgb) (q : List (List ColorRgb)) (k : ℕ)
    → rotate (length q) v (q ++ replicate k v) ≡ replicate (length q + k) v
unfolding rotate
rotate_lem v [] k = ap (λ n. replicate n v) (omega arith)
rotate_lem v (a ∷ q) k =
    let moved : (q ++ replicate k v) ++ v ∷ [] ≡ q ++ replicate (suc k) v =
      append_assoc q (replicate k v) (v ∷ []) ∙ ap (λ l. q ++ l) (replicate_snoc k v) in
    ap (rotate (length q) v) moved ∙ rotate_lem v q (suc k) ∙ ap (λ n. replicate n v) (omega arith)

-- Switching off makes the target black and leaves as many frames in the queue as there were, all
-- of them the black target.
pub switch_off_lem :
    (s : LinearColorSmoothing)
    → ((switch_off s).target_values ≡ replicate (length s.target_values) black)
      × ((switch_off s).output_queue
          ≡ replicate (length s.output_queue) (replicate (length s.target_values) black))
unfolding switch_off
switch_off_lem s = (dark s.target_values, all)
  where
    dark : (l : List ColorRgb) → map (λ (c : ColorRgb). black) l ≡ replicate (length l) black
    dark [] = refl
    dark (c ∷ l) = ap (λ r. black ∷ r) (dark l)

    v : List ColorRgb
    v = map (λ (c : ColorRgb). black) s.target_values

    all :
        rotate (length s.output_queue) v s.output_queue
        ≡ replicate (length s.output_queue) (replicate (length s.target_values) black)
    all =
        ap (rotate (length s.output_queue) v) (sym (append_nil s.output_queue))
        ∙ rotate_lem v s.output_queue 0
        ∙ rw (dark s.target_values)
            (ap (λ n. replicate n (replicate (length s.target_values) black)) (omega arith))
