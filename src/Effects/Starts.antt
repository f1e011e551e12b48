-- ===== src/Effects/Starts.antt =====
-- `runEffectScript` of libsrc/effectengine/EffectEngine.cpp: which effects run on which channel.
use Prim.Native.String.{String}
use hyperion_ng_beta.Prelude.{
  ℕ, ℤ, Bool, true, false, not, ◌&&◌, if◌then◌else◌, eqb_ℤ, eqb_ℤ_iff, eqb_ℤ_refl, List, [], ◌∷◌,
  ◌++◌, append_nil, length, ◌≤◌, arith, All, ◌≡◌, refl, sym, ◌∙◌, ap, Bool-cases, inl, inr,
}
use hyperion_ng_beta.Adjust.Doubles.{Doubles}
use hyperion_ng_beta.Leds.Led.{Fractions}
use hyperion_ng_beta.Effects.Active.{AllApart, Apart}
use hyperion_ng_beta.Effects.{
  Args, Effect, System, abort, abort_on, channel_cleared, run_effect_script,
}

and_false : (b : Bool) → (b && false) ≡ false
and_false true = refl
and_false false = refl

module _ {J : Type 0} where
  abbrev pub runs_on : ℤ → Effect J → Bool
  runs_on q e = not e.abort_requested && eqb_ℤ e.priority q

  -- The effects on a channel that are not told to stop, in the order of the list.
  abbrev pub running_on : ℤ → List (Effect J) → List (Effect J)
  running_on q [] = []
  running_on q (e ∷ es) = let rest = running_on q es in if runs_on q e then e ∷ rest else rest

  running_on-append :
      (q : ℤ) (es os : List (Effect J))
      → running_on q (es ++ os) ≡ running_on q es ++ running_on q os
  running_on-append q [] os = refl
  running_on-append q (e ∷ es) os = elim (Bool-cases (runs_on q e)) [
    | inl on ↦ rw on (ap (λ l. e ∷ l) (running_on-append q es os))
    | inr off ↦ rw off (running_on-append q es os)
  ]

  runs_on-other :
      (p q : ℤ) (e : Effect J) → eqb_ℤ e.priority p ≡ true → eqb_ℤ q p ≡ false → runs_on q e ≡ false
  runs_on-other p q e hit other = elim (Bool-cases (eqb_ℤ e.priority q)) [
    | inr off ↦ rw off (and_false (not e.abort_requested))
    | inl on ↦
        let same : q ≡ p = sym ((eqb_ℤ_iff e.priority q).0 on) ∙ (eqb_ℤ_iff e.priority p).0 hit in
        let clash : true ≡ false = sym ((eqb_ℤ_iff q p).1 same) ∙ other in absurd cc
  ]

  abort_on_off : (p : ℤ) (e : Effect J) → runs_on p (abort_on p e) ≡ false
  unfolding abort abort_on
  abort_on_off p e = elim (Bool-cases (eqb_ℤ e.priority p)) [
    | inl hit ↦ rw hit refl
    | inr miss ↦ rw (miss, miss) (and_false (not e.abort_requested))
  ]

  running_on-cleared : (p : ℤ) (es : List (Effect J)) → running_on p (channel_cleared p es) ≡ []
  unfolding channel_cleared
  running_on-cleared p [] = refl
  running_on-cleared p (e ∷ es) = rw (abort_on_off p e) (running_on-cleared p es)

  running_on-others :
      (p q : ℤ) (es : List (Effect J))
      → eqb_ℤ q p ≡ false
      → running_on q (channel_cleared p es) ≡ running_on q es
  unfolding channel_cleared abort abort_on
  running_on-others p q [] other = refl
  running_on-others p q (e ∷ es) other =
      let rest = running_on-others p q es other in
      elim (Bool-cases (eqb_ℤ e.priority p)) [
        | inr miss ↦ rw (miss, rest) refl
        | inl hit ↦ rw (hit, runs_on-other p q e hit other) rest
      ]

  runs_on_iff :
      (q : ℤ) (e : Effect J) → runs_on q e ≡ true → (e.abort_requested ≡ false) × (e.priority ≡ q)
  runs_on_iff q e h = elim (Bool-cases e.abort_requested) [
    | inl stopped ↦
        let clash : runs_on q e ≡ false = rw stopped refl in
        let clash' : true ≡ false = sym h ∙ clash in absurd cc
    | inr on ↦
        let hit : runs_on q e ≡ eqb_ℤ e.priority q = rw on refl in
        (on, (eqb_ℤ_iff e.priority q).0 (sym hit ∙ h))
  ]

  running_on-Apart :
      (q : ℤ) (e : Effect J) (es : List (Effect J))
      → runs_on q e ≡ true
      → All (Apart e) es
      → running_on q es ≡ []
  running_on-Apart q e [] on a = refl
  running_on-Apart q e (o ∷ es) on a = elim (Bool-cases (runs_on q o)) [
    | inr off ↦ rw off (running_on-Apart q e es on a.1)
    | inl on' ↦
        let (running, here) = runs_on_iff q e on in
        let (running', here') = runs_on_iff q o on' in
        absurd (a.0.channels running running' (here ∙ sym here'))
  ]

  -- At most one effect runs on a channel.
  pub length-running_on :
      (q : ℤ) (es : List (Effect J)) → AllApart es → length (running_on q es) ≤ 1
  length-running_on q [] a = omega arith
  length-running_on q (e ∷ es) a = elim (Bool-cases (runs_on q e)) [
    | inl on ↦ rw (on, running_on-Apart q e es on a.0) (omega arith)
    | inr off ↦ rw off (length-running_on q es a.1)
  ]

module _ (d : Doubles) (f : Fractions) {J : Type 0} where
  -- After runEffectScript the one effect that runs on its channel is the new one, with the given
  -- script, arguments and timeout; on each other channel the same effects run as before.
  pub running_on-run_effect_script :
      (address : ℕ) (script name : String) (args : Args J) (p timeout q : ℤ) (s : System d f J)
      → running_on q (run_effect_script d f address script name args p timeout s).0.active_effects
        ≡ (if eqb_ℤ q p
            then record {
              address = address;
              priority = p;
              timeout = timeout;
              script = script;
              name = name;
              args = args;
              abort_requested = false;
            }
              ∷ []
            else running_on q s.active_effects)
  unfolding run_effect_script
  running_on-run_effect_script address script name args p timeout q s =
      let before = channel_cleared p s.active_effects in
      elim (Bool-cases (eqb_ℤ q p)) [
        | inl same ↦
            let is = (eqb_ℤ_iff q p).0 same in
            rw (is, eqb_ℤ_refl p, running_on-append p before, running_on-cleared p s.active_effects)
              (rw (eqb_ℤ_refl p) refl)
        | inr other ↦
            let new : Effect J = record {
              address = address;
              priority = p;
              timeout = timeout;
              script = script;
              name = name;
              args = args;
              abort_requested = false;
            } in
            let off : runs_on q new ≡ false = runs_on-other p q new (eqb_ℤ_refl p) other in
            rw (other, running_on-append q before, off)
              (append_nil (running_on q before) ∙ running_on-others p q s.active_effects other)
      ]
