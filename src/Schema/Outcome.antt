-- ===== src/Schema/Outcome.antt =====
-- What a check leaves: the path as it was, new messages behind the old ones, and an error exactly if
-- there are new ones.
use Prim.Native.String.{String}
use hyperion_ng_beta.Prelude.{
  Bool, true, false, ◌||◌, List, [], ◌∷◌, ◌++◌, ◌≡◌, refl, sym, ap, ◌∙◌, append_assoc, append_nil,
  if◌then◌else◌,
}
use hyperion_ng_beta.Schema.Checker.{Checker, fail, push_path, pop_path, drop_last}

abbrev pub is_some_message : List String → Bool
is_some_message [] = false
is_some_message (m ∷ ms) = true

pub record Outcome (P : Type 0) (s t : Checker) : Type 0 where
  pub new : List String
  pub adds : t.messages ≡ s.messages ++ new
  pub flags : t.error ≡ (s.error || is_some_message new)
  pub same_path : t.current_path ≡ s.current_path
  pub same_rule : t.ignore_required ≡ s.ignore_required
  pub sound : new ≡ [] → P
  pub complete : P → new ≡ []

pub or_nil : (b : Bool) → b ≡ (b || false)
or_nil true = refl
or_nil false = refl

pub flags-append :
    (b : Bool) (xs ys : List String)
    → ((b || is_some_message xs) || is_some_message ys) ≡ (b || is_some_message (xs ++ ys))
flags-append true xs ys = refl
flags-append false [] ys = refl
flags-append false (x ∷ xs) ys = refl

pub append_nil_left : (xs ys : List String) → xs ++ ys ≡ [] → xs ≡ []
append_nil_left [] ys e = refl
append_nil_left (x ∷ xs) ys e = cc

pub append_nil_right : (xs ys : List String) → xs ++ ys ≡ [] → ys ≡ []
append_nil_right [] ys e = e
append_nil_right (x ∷ xs) ys e = cc

pub Outcome-pass : {P : Type 0} (c : Checker) → P → Outcome P c c
Outcome-pass c p = record {
  new = [];
  adds = sym (append_nil c.messages);
  flags = or_nil c.error;
  same_path = refl;
  same_rule = refl;
  sound = λ _. p;
  complete = λ _. refl;
}

or_true : (b : Bool) → true ≡ (b || true)
or_true true = refl
or_true false = refl

pub Outcome-fail : {P : Type 0} (m : String) (c : Checker) → (P → ⊥) → Outcome P c (fail m c)
unfolding fail
Outcome-fail m c no_p = record {
  new = _;
  adds = refl;
  flags = or_true c.error;
  same_path = refl;
  same_rule = refl;
  sound = λ e. cc;
  complete = λ p. absurd (no_p p);
}

pub Outcome-map : {P Q : Type 0} {s t : Checker} → (P → Q) → (Q → P) → Outcome P s t → Outcome Q s t
Outcome-map to from o = record {
  new = o.new;
  adds = o.adds;
  flags = o.flags;
  same_path = o.same_path;
  same_rule = o.same_rule;
  sound = λ e. to (o.sound e);
  complete = λ q. o.complete (from q);
}

-- The test of a check decides what it asks.
pub Outcome-test :
    {P : Type 0} (b : Bool) (m : String) (c : Checker)
    → (b ≡ false → P)
    → (P → b ≡ false)
    → Outcome P c (if b then fail m c else c)
Outcome-test true m c h k = Outcome-fail m c (λ p. let e : true ≡ false = k p in cc)
Outcome-test false m c h k = Outcome-pass c (h refl)

pub Outcome-then :
    {P Q : Type 0} {s t u : Checker} → Outcome P s t → Outcome Q t u → Outcome (P × Q) s u
Outcome-then {s} o p = record {
  new = o.new ++ p.new;
  adds = p.adds ∙ ap (λ l. l ++ p.new) o.adds ∙ append_assoc s.messages o.new p.new;
  flags = p.flags ∙ ap (λ b. b || is_some_message p.new) o.flags ∙ flags-append s.error o.new p.new;
  same_path = p.same_path ∙ o.same_path;
  same_rule = p.same_rule ∙ o.same_rule;
  sound = λ e. (o.sound (append_nil_left o.new p.new e), p.sound (append_nil_right o.new p.new e));
  complete = λ h. rw (o.complete h.0) (p.complete h.1);
}

pub drop_last-append {ℓ} : {A : Type ℓ} (xs : List A) (x : A) → drop_last (xs ++ x ∷ []) ≡ xs
unfolding drop_last
drop_last-append [] x = refl
drop_last-append (y ∷ []) x = refl
drop_last-append (y ∷ z ∷ xs) x = ap (λ l. y ∷ l) (drop_last-append (z ∷ xs) x)

-- A check between push_back and pop_back of the path.
pub Outcome-scope :
    {P : Type 0} {s t : Checker} (part : String)
    → Outcome P (push_path part s) t
    → Outcome P s (pop_path t)
unfolding push_path pop_path
Outcome-scope {s} part o = record {
  new = o.new;
  adds = o.adds;
  flags = o.flags;
  same_path = ap drop_last o.same_path ∙ drop_last-append s.current_path part;
  same_rule = o.same_rule;
  sound = o.sound;
  complete = o.complete;
}
