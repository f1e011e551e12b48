-- ===== src/Muxer/Timeout.antt =====
-- `setCurrentTime` of the priority muxer (PriorityMuxer.cpp): which channels stay.
use hyperion_ng_beta.Prelude.{
  ℤ, List, [], ◌∷◌, Option, none, some, true, false, ◌≡◌, refl, eqb_ℤ, min_ℤ, if◌then◌else◌, arith,
  ◌≤ℤ◌, All, eqb_ℤ_iff, min_ℤ_le, min_ℤ_choice, ◌⊎◌, inl, inr, Bool-cases,
}
use hyperion_ng_beta.QMap.{find, contains}
use hyperion_ng_beta.QMap.Laws.{IsAscending, Above, find-Above}
use hyperion_ng_beta.Muxer.{
  PriorityMuxer, InputInfo, lowest_priority, no_timeout, set_current_time, sweep, is_expired,
}
use hyperion_ng_beta.Muxer.Invariant.{Fits, HasLowest, IsValid, Keyed, Keyed-Fits}

-- A sweep only lowers the current priority, and what it keeps fits under the result.
sweep-Fits :
    (now c : ℤ) (m : List (ℤ × InputInfo))
    → All Keyed m
    → ((sweep now c m).0 ≤ℤ c) × All (Fits (sweep now c m).0) (sweep now c m).1
unfolding sweep
sweep-Fits now c [] k = (omega arith, tt)
sweep-Fits now c ((j, v) ∷ m) k = elim (Bool-cases (is_expired now v)) [
  | inl gone ↦ rw gone (sweep-Fits now c m k.1)
  | inr stays ↦
      let (below, all) = sweep-Fits now (min_ℤ c v.priority) m k.1 in
      let (left, right) = min_ℤ_le c v.priority in
      rw stays (omega (arith, below, left), ((k.0, ground (arith, below, right, k.0)), all))
]

sweep-Above : (b now c : ℤ) (m : List (ℤ × InputInfo)) → Above b m → Above b (sweep now c m).1
unfolding sweep
sweep-Above b now c [] h = tt
sweep-Above b now c ((j, v) ∷ m) h = elim (Bool-cases (is_expired now v)) [
  | inl gone ↦ rw gone (sweep-Above b now c m h.1)
  | inr stays ↦ rw stays (h.0, sweep-Above b now (min_ℤ c v.priority) m h.1)
]

sweep-IsAscending :
    (now c : ℤ) (m : List (ℤ × InputInfo)) → IsAscending m → IsAscending (sweep now c m).1
unfolding sweep
sweep-IsAscending now c [] h = tt
sweep-IsAscending now c ((j, v) ∷ m) h = elim (Bool-cases (is_expired now v)) [
  | inl gone ↦ rw gone (sweep-IsAscending now c m h.1)
  | inr stays ↦ rw stays (
    sweep-Above j now (min_ℤ c v.priority) m h.0,
    sweep-IsAscending now (min_ℤ c v.priority) m h.1,
  )
]

abbrev pub unless_expired : ℤ → Option InputInfo → Option InputInfo
unless_expired now none = none
unless_expired now (some i) = if is_expired now i then none else some i

-- A lookup after the sweep: the entry of before, unless it has expired.
pub find-sweep :
    (k now c : ℤ) (m : List (ℤ × InputInfo))
    → IsAscending m
    → find k (sweep now c m).1 ≡ unless_expired now (find k m)
unfolding sweep find
find-sweep k now c [] h = refl
find-sweep k now c ((j, v) ∷ m) h = ground (
  arith,
  find-sweep k now c m h.1,
  find-sweep k now (min_ℤ c v.priority) m h.1,
  find-Above j m h.0,
  eqb_ℤ_iff j k,
)

sweep-choice :
    (now c : ℤ) (m : List (ℤ × InputInfo))
    → All Keyed m
    → ((sweep now c m).0 ≡ c) ⊎ (contains (sweep now c m).0 (sweep now c m).1 ≡ true)
unfolding sweep contains find
sweep-choice now c [] k = inl refl
sweep-choice now c ((j, v) ∷ m) k = elim (Bool-cases (is_expired now v)) [
  | inl gone ↦ rw gone (sweep-choice now c m k.1)
  | inr stays ↦ rw stays (
      ground (
        arith,
        k.0,
        sweep-choice now (min_ℤ c v.priority) m k.1,
        min_ℤ_choice c v.priority,
        eqb_ℤ_iff j (sweep now (min_ℤ c v.priority) m).0,
      ))
]

lowest_stays : (now : ℤ) (i : InputInfo) → i.timeout_time_ms ≡ no_timeout → is_expired now i ≡ false
unfolding is_expired eqb_ℤ
lowest_stays now i e = ground arith

sweep-HasLowest :
    (now c : ℤ) (m : List (ℤ × InputInfo))
    → IsAscending m
    → HasLowest m
    → HasLowest (sweep now c m).1
sweep-HasLowest now c m a (i, e, t) =
    (i, ground (arith, find-sweep lowest_priority now c m a, lowest_stays now i t), t)

pub contains_of_HasLowest :
    (m : List (ℤ × InputInfo)) → HasLowest m → contains lowest_priority m ≡ true
unfolding contains
contains_of_HasLowest m (i, e, t) = rw e

pub set_current_time-IsValid :
    (now : ℤ) (s : PriorityMuxer) → IsValid s → IsValid (set_current_time now s)
unfolding set_current_time
set_current_time-IsValid now s v =
    let m = s.active_inputs in
    let k = Keyed-Fits s.current_priority m v.least in
    let low = sweep-HasLowest now lowest_priority m v.ascending v.has_lowest in
    record {
      ascending = sweep-IsAscending now lowest_priority m v.ascending;
      least = (sweep-Fits now lowest_priority m k).1;
      active = elim (sweep-choice now lowest_priority m k) [
        | inl e ↦ rw e (contains_of_HasLowest _ low)
        | inr e ↦ e
      ];
      has_lowest = low;
      lowest_info = v.lowest_info;
    }
