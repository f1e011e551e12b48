-- ===== src/Effects/Active.antt =====
-- The list of active effects of libsrc/effectengine/EffectEngine.cpp: one object per address, and one
-- effect per channel that is not told to stop.
use hyperion_ng_beta.Prelude.{
  ℕ, ℤ, ◌==◌, ==_iff, true, false, eqb_ℤ, eqb_ℤ_iff, List, [], ◌∷◌, ◌++◌, map, some, ◌≡◌, ◌≢◌, refl,
  sym, ◌∙◌, ap, subst, All, Bool-cases, inl, inr, arith,
}
use hyperion_ng_beta.Core.{
  EffectSignal, channel_cleared as to_channel, all_channels_cleared as to_all,
}
use hyperion_ng_beta.Effects.{
  Effect, abort, abort_on, channel_cleared, all_channels_cleared, deliver, find_effect, erase,
}

module _ {J : Type 0} where
  -- Two objects, which do not run on the same channel.
  pub record Apart (e o : Effect J) : Type 0 where
    pub objects : e.address ≢ o.address
    pub channels : e.abort_requested ≡ false → o.abort_requested ≡ false → e.priority ≢ o.priority

  abbrev pub AllApart : List (Effect J) → Type 0
  AllApart [] = Unit
  AllApart (e ∷ es) = All (Apart e) es × AllApart es

  -- What a call of the core can do to an effect: tell it to stop, no more.
  pub record IsStopping (g : Effect J → Effect J) : Type 0 where
    pub address : (e : Effect J) → (g e).address ≡ e.address
    pub priority : (e : Effect J) → (g e).priority ≡ e.priority
    pub running : (e : Effect J) → (g e).abort_requested ≡ false → g e ≡ e

  abort_on-IsStopping : (p : ℤ) → IsStopping (abort_on p)
  unfolding abort abort_on
  abort_on-IsStopping p = record {
    address = λ e. elim (Bool-cases (eqb_ℤ e.priority p)) [ inl h ↦ rw h refl | inr h ↦ rw h refl ];
    priority =
        λ e. elim (Bool-cases (eqb_ℤ e.priority p)) [ inl h ↦ rw h refl | inr h ↦ rw h refl ];
    running = λ e. elim (Bool-cases (eqb_ℤ e.priority p)) [
      | inl h ↦ rw h (λ off. absurd (cc))
      | inr h ↦ rw h (λ off. refl)
    ];
  }

  abort-IsStopping : IsStopping abort
  unfolding abort
  abort-IsStopping = record {
    address = λ e. refl;
    priority = λ e. refl;
    running = λ e off. absurd (cc);
  }

  Apart-map :
      (g : Effect J → Effect J) → IsStopping g → (e o : Effect J) → Apart e o → Apart (g e) (g o)
  Apart-map g h e o a = record {
    objects = rw (h.address e, h.address o) a.objects;
    channels = λ on on'.
        let ee = h.running e on in
        let eo = h.running o on' in
        rw (h.priority e, h.priority o)
          (a.channels (sym (ap (λ x. x.abort_requested) ee) ∙ on)
            (sym (ap (λ x. x.abort_requested) eo) ∙ on'));
  }

  All-Apart-map :
      (g : Effect J → Effect J)
      → IsStopping g
      → (e : Effect J) (es : List (Effect J)) → All (Apart e) es
      → All (Apart (g e)) (map g es)
  All-Apart-map g h e [] a = tt
  All-Apart-map g h e (o ∷ es) a = (Apart-map g h e o a.0, All-Apart-map g h e es a.1)

  AllApart-map :
      (g : Effect J → Effect J)
      → IsStopping g
      → (es : List (Effect J)) → AllApart es
      → AllApart (map g es)
  AllApart-map g h [] a = tt
  AllApart-map g h (e ∷ es) a = (All-Apart-map g h e es a.0, AllApart-map g h es a.1)

  pub deliver-AllApart :
      (xs : List EffectSignal) (es : List (Effect J)) → AllApart es → AllApart (deliver xs es)
  unfolding deliver channel_cleared all_channels_cleared
  deliver-AllApart [] es a = a
  deliver-AllApart (to_channel p ∷ xs) es a =
      deliver-AllApart xs (map (abort_on p) es)
        (AllApart-map (abort_on p) (abort_on-IsStopping p) es a)
  deliver-AllApart (to_all ∷ xs) es a =
      deliver-AllApart xs (map abort es) (AllApart-map abort abort-IsStopping es a)

  -- An address that no active effect has.
  abbrev pub IsNew : ℕ → List (Effect J) → Type 0
  IsNew address es = All (λ (e : Effect J). e.address ≢ address) es

  Apart-new :
      (e new : Effect J)
      → e.address ≢ new.address
      → new.abort_requested ≡ false
      → Apart (abort_on new.priority e) new
  unfolding abort abort_on
  Apart-new e new other on = elim (Bool-cases (eqb_ℤ e.priority new.priority)) [
    | inl h ↦ rw h (record { objects = other; channels = λ off on'. absurd cc })
    | inr h ↦
        let apart : Apart e new = record {
          objects = other;
          channels = λ off on' same.
              let hit = (eqb_ℤ_iff e.priority new.priority).1 same in
              let clash : true ≡ false = sym hit ∙ h in absurd cc;
        } in
        rw h apart
  ]

  All-Apart-new :
      (es : List (Effect J)) (new : Effect J)
      → IsNew new.address es
      → new.abort_requested ≡ false
      → All (λ e. Apart e new) (channel_cleared new.priority es)
  unfolding channel_cleared
  All-Apart-new [] new h on = tt
  All-Apart-new (e ∷ es) new h on = (Apart-new e new h.0 on, All-Apart-new es new h.1 on)

  All-snoc :
      (P : Effect J → Type 0) (es : List (Effect J)) (e : Effect J)
      → All P es
      → P e
      → All P (es ++ e ∷ [])
  All-snoc P [] e h p = (p, tt)
  All-snoc P (x ∷ es) e h p = (h.0, All-snoc P es e h.1 p)

  AllApart-snoc :
      (es : List (Effect J)) (new : Effect J)
      → All (λ e. Apart e new) es
      → AllApart es
      → AllApart (es ++ new ∷ [])
  AllApart-snoc [] new h a = (tt, tt)
  AllApart-snoc (e ∷ es) new h a = (All-snoc (Apart e) es new a.0 h.0, AllApart-snoc es new h.1 a.1)

  -- A new effect takes over its channel.
  pub start-AllApart :
      (es : List (Effect J)) (new : Effect J)
      → IsNew new.address es
      → new.abort_requested ≡ false
      → AllApart es
      → AllApart (channel_cleared new.priority es ++ new ∷ [])
  unfolding channel_cleared
  start-AllApart es new h on a =
      AllApart-snoc _ new (All-Apart-new es new h on)
        (AllApart-map (abort_on new.priority) (abort_on-IsStopping new.priority) es a)

  All-erase :
      (P : Effect J → Type 0) (address : ℕ) (es : List (Effect J))
      → All P es
      → All P (erase address es)
  unfolding erase
  All-erase P address [] h = tt
  All-erase P address (e ∷ es) h = elim (Bool-cases (e.address == address)) [
    | inl same ↦ rw same h.1
    | inr other ↦ rw other (h.0, All-erase P address es h.1)
  ]

  pub erase-AllApart :
      (address : ℕ) (es : List (Effect J)) → AllApart es → AllApart (erase address es)
  unfolding erase
  erase-AllApart address [] a = tt
  erase-AllApart address (e ∷ es) a = elim (Bool-cases (e.address == address)) [
    | inl same ↦ rw same a.1
    | inr other ↦ rw other (All-erase (Apart e) address es a.0, erase-AllApart address es a.1)
  ]

  -- An effect on another channel, or one that is told to stop, is not changed.
  abort_on-same :
      (p : ℤ) (e : Effect J) → (e.abort_requested ≡ false → e.priority ≢ p) → abort_on p e ≡ e
  unfolding abort abort_on
  abort_on-same p e h = elim (Bool-cases (eqb_ℤ e.priority p)) [
    | inr off ↦ rw off refl
    | inl on ↦ elim (Bool-cases e.abort_requested) [
      | inl stopped ↦ rw on (ap (λ b. record e { abort_requested = b }) (sym stopped))
      | inr running ↦ absurd (h running ((eqb_ℤ_iff e.priority p).0 on))
    ]
  ]

  find_effect-hit :
      (x : Effect J) (es : List (Effect J)) (address : ℕ)
      → (x.address == address) ≡ true
      → find_effect address (x ∷ es) ≡ some x
  unfolding find_effect
  find_effect-hit x es address h = rw h refl

  find_effect-miss :
      (x : Effect J) (es : List (Effect J)) (address : ℕ)
      → (x.address == address) ≡ false
      → find_effect address (x ∷ es) ≡ find_effect address es
  unfolding find_effect
  find_effect-miss x es address h = rw h refl

  All-find :
      (P : Effect J → Type 0) (address : ℕ) (es : List (Effect J)) (e : Effect J)
      → find_effect address es ≡ some e
      → All P es
      → P e
  unfolding find_effect
  All-find P address [] e found h = absurd cc
  All-find P address (x ∷ es) e found h = elim (Bool-cases (x.address == address)) [
    | inl same ↦
        let is : some x ≡ some e = sym (find_effect-hit x es address same) ∙ found in
        let is' : x ≡ e = cc in subst P is' h.0
    | inr other ↦ All-find P address es e (sym (find_effect-miss x es address other) ∙ found) h.1
  ]

  channel_cleared-Apart :
      (e : Effect J) (es : List (Effect J))
      → e.abort_requested ≡ false
      → All (Apart e) es
      → channel_cleared e.priority es ≡ es
  unfolding channel_cleared
  channel_cleared-Apart e [] on h = refl
  channel_cleared-Apart e (o ∷ es) on h =
      let first = abort_on-same e.priority o (λ on' same. h.0.channels on on' (sym same)) in
      let rest = channel_cleared-Apart e es on h.1 in rw first (ap (λ l. o ∷ l) rest)

  -- Clearing the channel of a running effect stops that effect only.
  pub erase-channel_cleared :
      (es : List (Effect J)) (e : Effect J)
      → find_effect e.address es ≡ some e
      → e.abort_requested ≡ false
      → AllApart es
      → erase e.address (channel_cleared e.priority es) ≡ erase e.address es
  unfolding erase channel_cleared
  erase-channel_cleared [] e found on a = refl
  erase-channel_cleared (x ∷ es) e found on a =
      let same_address = (abort_on-IsStopping e.priority).address x in
      elim (Bool-cases (x.address == e.address)) [
        | inl same ↦
            let is : some x ≡ some e = sym (find_effect-hit x es e.address same) ∙ found in
            let is' : x ≡ e = cc in
            rw (same_address, same)
              (channel_cleared-Apart e es on (subst (λ z. All (Apart z) es) is' a.0))
        | inr other ↦
            let found' = sym (find_effect-miss x es e.address other) ∙ found in
            let apart = All-find (Apart x) e.address es e found' a.0 in
            let first = abort_on-same e.priority x (λ on'. apart.channels on' on) in
            rw (same_address, other, first)
              (ap (λ l. x ∷ l) (erase-channel_cleared es e found' on a.1))
      ]

  -- The other effects are still there.
  pub find_effect-erase :
      (es : List (Effect J)) (address : ℕ) (o : Effect J)
      → find_effect o.address es ≡ some o
      → o.address ≢ address
      → find_effect o.address (erase address es) ≡ some o
  unfolding erase
  find_effect-erase [] address o found other = found
  find_effect-erase (x ∷ es) address o found other = elim (Bool-cases (x.address == address)) [
    | inl gone ↦
        let same = (==_iff x.address address).0 gone in
        let miss : (x.address == o.address) ≡ false = grind arith in
        rw gone (sym (find_effect-miss x es o.address miss) ∙ found)
    | inr stays ↦ elim (Bool-cases (x.address == o.address)) [
      | inl hit ↦ rw stays (
          find_effect-hit x (erase address es) o.address hit
          ∙ sym (find_effect-hit x es o.address hit)
          ∙ found)
      | inr miss ↦
          let found' = sym (find_effect-miss x es o.address miss) ∙ found in
          rw stays (
            find_effect-miss x (erase address es) o.address miss
            ∙ find_effect-erase es address o found' other)
    ]
  ]
