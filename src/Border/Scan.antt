-- ===== src/Border/Scan.antt =====
-- The search loops of the border detector (BlackBorderDetector.h): they find the first index at which
-- a test holds, and make no faulty read if the tests make none.
use hyperion_ng_beta.Prelude.{
  ℕ, zero, suc, ℤ, pos, ◌+◌, ◌≤◌, ◌<◌, ◌≡◌, refl, ◌⊎◌, inl, inr, Option, some, Bool, true, false,
  arith,
}
use hyperion_ng_beta.Border.{first_index, not_found}

-- The test can be made at every index of a range.
abbrev pub Total : (ℕ → Option Bool) → ℕ → ℕ → Type 0
Total test lo hi = (k : ℕ) → lo ≤ k → k < hi → (b : Bool) × (test k ≡ some b)

-- `r` is the first index from `lo` below `hi` at which the test holds, or -1 if there is none.
abbrev pub IsFirst : (ℕ → Option Bool) → ℕ → ℕ → ℤ → Type 0
IsFirst test lo hi r =
    ((r ≡ not_found) × ((k : ℕ) → lo ≤ k → k < hi → test k ≡ some false))
    ⊎ ((x : ℕ) × (r ≡ pos x)
        × (lo ≤ x)
        × (x < hi)
        × (test x ≡ some true)
        × ((k : ℕ) → lo ≤ k → k < x → test k ≡ some false))

module _ (test : ℕ → Option Bool) where
  extend_false :
      (lo hi : ℕ)
      → test lo ≡ some false
      → ((k : ℕ) → lo + 1 ≤ k → k < hi → test k ≡ some false)
      → (k : ℕ) → lo ≤ k
      → k < hi
      → test k ≡ some false
  extend_false lo hi h rest k p q = elim (lo_or_above lo k p) [
    | inl e ↦ rw e h
    | inr l ↦ rest k l q
  ]
    where
      lo_or_above : (lo k : ℕ) → lo ≤ k → (k ≡ lo) ⊎ (lo + 1 ≤ k)
      lo_or_above lo k p = omega arith

  -- What the rest of the search finds, seen from one index earlier.
  extend_IsFirst :
      (lo hi : ℕ) (r : ℤ) → test lo ≡ some false → IsFirst test (lo + 1) hi r → IsFirst test lo hi r
  extend_IsFirst lo hi r h (inl (e, f)) = inl (e, extend_false lo hi h f)
  extend_IsFirst lo hi r h (inr (x, e, l, u, t, f)) =
      inr (x, e, omega arith, u, t, extend_false lo x h f)

  first_index_step :
      (n lo hi : ℕ) (b : Bool)
      → test lo ≡ some b
      → lo < hi
      → ((r : ℤ) × (first_index test n (lo + 1) ≡ some r) × IsFirst test (lo + 1) hi r)
      → (r : ℤ) × (first_index test (suc n) lo ≡ some r) × IsFirst test lo hi r
  unfolding first_index
  first_index_step n lo hi true e l ih =
      (pos lo, rw e, inr (lo, refl, omega arith, l, e, λ k p q. absurd (omega arith)))
  first_index_step n lo hi false e l (r, f, s) = (r, rw e f, extend_IsFirst lo hi r e s)

  pub first_index-IsFirst :
      (n lo hi : ℕ)
      → lo + n ≡ hi
      → Total test lo hi
      → (r : ℤ) × (first_index test n lo ≡ some r) × IsFirst test lo hi r
  unfolding first_index
  first_index-IsFirst zero lo hi e t = (not_found, refl, inl (refl, λ k p q. absurd (omega arith)))
  first_index-IsFirst (suc n) lo hi e t =
      let (b, f) = t lo (omega arith) (omega arith) in
      first_index_step n lo hi b f (omega arith)
        (first_index-IsFirst n (lo + 1) hi (omega arith) (λ k p q. t k (omega arith) q))
