-- ===== src/Muxer/Invariant.antt =====
-- What holds of the priority muxer between two calls (PriorityMuxer.cpp), and that every operation
-- keeps it.
use hyperion_ng_beta.Prelude.{
  ℕ, ℤ, List, [], ◌∷◌, some, true, ◌≡◌, refl, ltb_ℤ, eqb_ℤ, min_ℤ, arith, ◌≤ℤ◌, All, eqb_ℤ_iff,
  min_ℤ_le, min_ℤ_choice, ◌⊎◌, inl, inr, Bool-cases, sym,
}
use hyperion_ng_beta.Color.{ColorRgb}
use hyperion_ng_beta.Components.{Components}
use hyperion_ng_beta.QMap.{find, contains, insert, remove, keys}
use hyperion_ng_beta.QMap.Laws.{contains-insert, contains-remove}
use hyperion_ng_beta.QMap.Laws.{
  IsAscending, insert-IsAscending, remove-IsAscending, find-insert, find-remove, All-insert,
  All-remove,
}
use hyperion_ng_beta.Muxer.{
  PriorityMuxer, InputInfo, lowest_priority, no_timeout, init, set_input, clear_input, clear_all,
  min_from, min_element,
}

-- The entry is stored under its own priority, which is no smaller than `c`.
abbrev pub Fits : ℤ → ℤ × InputInfo → Type 0
Fits c e = (e.0 ≡ e.1.priority) × (c ≤ℤ e.0)

-- The lowest channel is there and never times out.
abbrev pub HasLowest : List (ℤ × InputInfo) → Type 0
HasLowest m = (i : InputInfo) × (find lowest_priority m ≡ some i) × (i.timeout_time_ms ≡ no_timeout)

pub record IsValid (s : PriorityMuxer) : Type 0 where
  pub ascending : IsAscending s.active_inputs
  pub least : All (Fits s.current_priority) s.active_inputs
  pub active : contains s.current_priority s.active_inputs ≡ true
  pub has_lowest : HasLowest s.active_inputs
  pub lowest_info :
      (s.lowest_priority_info.priority ≡ lowest_priority)
      × (s.lowest_priority_info.timeout_time_ms ≡ no_timeout)

Fits-weaken : (a b : ℤ) (m : List (ℤ × InputInfo)) → a ≤ℤ b → All (Fits b) m → All (Fits a) m
Fits-weaken a b [] h t = tt
Fits-weaken a b ((j, v) ∷ m) h t = ((t.0.0, omega arith), Fits-weaken a b m h t.1)

pub init-IsValid : (n : ℕ) (c : Components) → IsValid (init n c)
unfolding init insert find contains eqb_ℤ
init-IsValid n c = record {
  ascending = (tt, tt);
  least = ((refl, omega arith), tt);
  active = refl;
  has_lowest = (_, refl, refl);
  lowest_info = (refl, refl);
}

abbrev pub info : ℤ → List ColorRgb → ℤ → Components → InputInfo
info p l t c = record { priority = p; timeout_time_ms = t; led_colors = l; component_id = c }

lowest_insert :
    (p : ℤ) (i : InputInfo) (m : List (ℤ × InputInfo))
    → (p ≡ lowest_priority → i.timeout_time_ms ≡ no_timeout)
    → HasLowest m
    → HasLowest (insert p i m)
lowest_insert p i m h v = elim (Bool-cases (eqb_ℤ p lowest_priority)) [
  | inl e ↦ (i, rw (find-insert lowest_priority p i m, e), h ((eqb_ℤ_iff p lowest_priority).0 e))
  | inr e ↦ (v.0, rw (find-insert lowest_priority p i m, e) v.1, v.2)
]

pub set_input-IsValid :
    (p : ℤ) (l : List ColorRgb) (t : ℤ) (c : Components) (s : PriorityMuxer)
    → (p ≡ lowest_priority → t ≡ no_timeout)
    → IsValid s
    → IsValid (set_input p l t c s)
unfolding set_input contains
set_input-IsValid p l t c s h v = record {
  ascending = insert-IsAscending p _ s.active_inputs v.ascending;
  least =
      All-insert (Fits q) p _ s.active_inputs (refl, (min_ℤ_le s.current_priority p).1)
        (Fits-weaken q s.current_priority s.active_inputs (min_ℤ_le s.current_priority p).0
          v.least);
  active = ground (
    arith,
    contains-insert q p (info p l t c) s.active_inputs,
    min_ℤ_choice s.current_priority p,
    eqb_ℤ_iff p q,
    v.active,
  );
  has_lowest = lowest_insert p (info p l t c) s.active_inputs h v.has_lowest;
  lowest_info = v.lowest_info;
}
  where
    q : ℤ
    q = min_ℤ s.current_priority p

-- The smallest element, taken among the keys and a first one.
min_from-Fits :
    (b : ℤ) (m : List (ℤ × InputInfo))
    → (min_from b (keys m) ≤ℤ b) × All (λ e. min_from b (keys m) ≤ℤ e.0) m
unfolding min_from keys
min_from-Fits b [] = (omega arith, tt)
min_from-Fits b ((j, v) ∷ m) =
    let (below, all) = min_from-Fits (min_ℤ b j) m in
    let (left, right) = min_ℤ_le b j in
    (omega (arith, below, left), (omega (arith, below, right), all))

min_from-choice :
    (b : ℤ) (m : List (ℤ × InputInfo))
    → (min_from b (keys m) ≡ b) ⊎ (contains (min_from b (keys m)) m ≡ true)
unfolding min_from keys contains find
min_from-choice b [] = inl refl
min_from-choice b ((j, v) ∷ m) = ground (
  arith,
  min_from-choice (min_ℤ b j) m,
  min_ℤ_choice b j,
  eqb_ℤ_iff j j,
  eqb_ℤ_iff j (min_from (min_ℤ b j) (keys m)),
)

abbrev pub Keyed : ℤ × InputInfo → Type 0
Keyed e = e.0 ≡ e.1.priority

pub Keyed-Fits : (c : ℤ) (m : List (ℤ × InputInfo)) → All (Fits c) m → All Keyed m
Keyed-Fits c [] h = tt
Keyed-Fits c ((j, v) ∷ m) h = (h.0.0, Keyed-Fits c m h.1)

Fits-Keyed :
    (c : ℤ) (m : List (ℤ × InputInfo)) → All Keyed m → All (λ e. c ≤ℤ e.0) m → All (Fits c) m
Fits-Keyed c [] h t = tt
Fits-Keyed c ((j, v) ∷ m) h t = ((h.0, t.0), Fits-Keyed c m h.1 t.1)

-- The new current priority of a muxer with at least the lowest channel left.
min_element-keys :
    (m : List (ℤ × InputInfo))
    → HasLowest m
    → All Keyed m
    → (c : ℤ) × (min_element (keys m) ≡ some c) × All (Fits c) m × (contains c m ≡ true)
unfolding min_element keys find contains
min_element-keys [] (i, e, t) k = cc
min_element-keys ((j, v) ∷ m) h k = (
  min_from j (keys m),
  refl,
  ((k.0, (min_from-Fits j m).0), Fits-Keyed (min_from j (keys m)) m k.1 (min_from-Fits j m).1),
  ground (arith, min_from-choice j m, eqb_ℤ_iff j j, eqb_ℤ_iff j (min_from j (keys m))),
)

remove-HasLowest :
    (p : ℤ) (m : List (ℤ × InputInfo))
    → IsAscending m
    → ltb_ℤ p lowest_priority ≡ true
    → HasLowest m
    → HasLowest (remove p m)
unfolding ltb_ℤ
remove-HasLowest p m a l (i, e, t) =
    (i, ground (arith, find-remove lowest_priority p m a, eqb_ℤ_iff p lowest_priority), t)

-- Clearing a channel never reads past the end of the list of keys, and keeps the invariant.
pub clear_input-IsValid :
    (p : ℤ) (s : PriorityMuxer)
    → IsValid s
    → (t : PriorityMuxer) × (clear_input p s ≡ some t) × IsValid t
unfolding clear_input
clear_input-IsValid p s v = elim (Bool-cases (ltb_ℤ p lowest_priority)) [
  | inr high ↦ (s, rw high, v)
  | inl low ↦ elim (Bool-cases (eqb_ℤ s.current_priority p)) [
    | inl same ↦
        let (c, e, fits, here) =
          min_element-keys left (lowest low) (Keyed-Fits s.current_priority left kept) in
        (
          record s { active_inputs = left; current_priority = c },
          rw (low, same, e),
          record {
            ascending = ordered;
            least = fits;
            active = here;
            has_lowest = lowest low;
            lowest_info = v.lowest_info;
          },
        )
    | inr other ↦ (
      record s { active_inputs = left },
      rw (low, other),
      record {
        ascending = ordered;
        least = kept;
        active = ground (
          arith,
          contains-remove s.current_priority p s.active_inputs v.ascending,
          v.active,
          eqb_ℤ_iff s.current_priority p,
          eqb_ℤ_iff p s.current_priority,
        );
        has_lowest = lowest low;
        lowest_info = v.lowest_info;
      },
    )
  ]
]
  where
    left : List (ℤ × InputInfo)
    left = remove p s.active_inputs

    ordered : IsAscending left
    ordered = remove-IsAscending p s.active_inputs v.ascending

    kept : All (Fits s.current_priority) left
    kept = All-remove (Fits s.current_priority) p s.active_inputs v.least

    lowest : ltb_ℤ p lowest_priority ≡ true → HasLowest left
    lowest low = remove-HasLowest p s.active_inputs v.ascending low v.has_lowest

pub clear_all-IsValid : (s : PriorityMuxer) → IsValid s → IsValid (clear_all s)
unfolding clear_all insert find contains eqb_ℤ
clear_all-IsValid s v = record {
  ascending = (tt, tt);
  least = ((sym v.lowest_info.0, omega arith), tt);
  active = refl;
  has_lowest = (s.lowest_priority_info, refl, v.lowest_info.1);
  lowest_info = v.lowest_info;
}
