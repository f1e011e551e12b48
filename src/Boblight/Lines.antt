-- ===== src/Boblight/Lines.antt =====
-- The loop of `readData` of libsrc/boblightserver/BoblightClientConnection.cpp takes lines.
use hyperion_ng_beta.Prelude.{
  ℕ, zero, suc, ◌+◌, ◌-◌, ◌*◌, ◌≤◌, ◌==◌, ==_iff, ltb, ltb→lt, Gives-bind, false, if◌then◌else◌,
  List, [], ◌∷◌, ◌++◌, append_assoc, length-append, some, ◌>>=◌, length, take, drop, All, Gives,
  ◌≡◌, refl, sym, ◌∙◌, ap, Bool-cases, inl, inr, ◌⊎◌, arith, subst,
}
use hyperion_ng_beta.Boblight.Text.{index_of_next, read_messages}

-- Without an end of line.
abbrev pub IsOneLine : List ℕ → Type 0
IsOneLine = All (λ c. (c == b'\n') ≡ false)

-- The lines, each with its end.
abbrev pub join_lines : List (List ℕ) → List ℕ
join_lines [] = []
join_lines (m ∷ ms) = m ++ b'\n' ∷ join_lines ms

-- The first line of a text, and what is behind its end.
record FirstLine (xs : List ℕ) : Type 0 where
  line : List ℕ
  behind : List ℕ
  whole : xs ≡ line ++ b'\n' ∷ behind
  one_line : IsOneLine line
  index : index_of_next b'\n' xs ≡ suc (length line)

index-cases : (xs : List ℕ) → ((index_of_next b'\n' xs ≡ 0) × IsOneLine xs) ⊎ FirstLine xs
unfolding index_of_next
index-cases [] = inl (refl, tt)
index-cases (x ∷ xs) = elim (Bool-cases (x == b'\n')) [
  | inl hit ↦ inr (record {
    line = [];
    behind = xs;
    whole = ap (λ c. c ∷ xs) ((==_iff x b'\n').0 hit);
    one_line = tt;
    index = rw hit refl;
  })
  | inr miss ↦ elim (index-cases xs) [
    | inl (absent, one) ↦ inl (rw (miss, absent) refl, (miss, one))
    | inr r ↦ inr (record {
      line = x ∷ r.line;
      behind = r.behind;
      whole = ap (λ l. x ∷ l) r.whole;
      one_line = (miss, r.one_line);
      index = rw (miss, r.index) (ground arith);
    })
  ]
]

take-line : (line behind : List ℕ) → take (length line) (line ++ b'\n' ∷ behind) ≡ line
take-line [] behind = refl
take-line (c ∷ line) behind = ap (λ l. c ∷ l) (take-line line behind)

drop-line : (line behind : List ℕ) → drop (suc (length line)) (line ++ b'\n' ∷ behind) ≡ behind
drop-line [] behind = refl
drop-line (c ∷ line) behind = drop-line line behind

-- The messages are lines, in their order, and what stays is the start of one.
abbrev pub AreLines : List ℕ → List (List ℕ) × List ℕ → Type 0
AreLines buffer r = (join_lines r.0 ++ r.1 ≡ buffer) × All IsOneLine r.0 × IsOneLine r.1

-- What stays in the buffer behind a line.
abbrev kept : List ℕ → List ℕ
kept behind = if ltb (100 * 1024) (length behind) then [] else behind

kept-small : (behind : List ℕ) → length behind ≤ 100 * 1024 → kept behind ≡ behind
kept-small behind small = elim (Bool-cases (ltb (100 * 1024) (length behind))) [
  | inl over ↦ absurd (omega (arith, ltb→lt (100 * 1024) (length behind) over, small))
  | inr fits ↦ rw fits refl
]

length-kept : (behind : List ℕ) → length (kept behind) ≤ length behind
length-kept behind = elim (Bool-cases (ltb (100 * 1024) (length behind))) [
  | inl over ↦ rw over (omega arith)
  | inr fits ↦ rw fits (omega arith)
]

read-line :
    (rounds : ℕ) (line behind : List ℕ)
    → index_of_next b'\n' (line ++ b'\n' ∷ behind) ≡ suc (length line)
    → read_messages (suc rounds) (line ++ b'\n' ∷ behind)
      ≡ (read_messages rounds (kept behind) >>= λ r. some (line ∷ r.0, r.1))
unfolding read_messages
read-line rounds line behind index =
    let one_less : suc (length line) - 1 ≡ length line = omega arith in
    let found : (suc (length line) == 0) ≡ false = ground arith in
    rw (index, one_less, found, drop-line line behind, take-line line behind) refl

read-FirstLine :
    (rounds : ℕ) (buffer : List ℕ) (r : FirstLine buffer)
    → read_messages (suc rounds) buffer
      ≡ (read_messages rounds (kept r.behind) >>= λ t. some (r.line ∷ t.0, t.1))
read-FirstLine rounds buffer r =
    ap (read_messages (suc rounds)) r.whole
    ∙ read-line rounds r.line r.behind (ap (index_of_next b'\n') (sym r.whole) ∙ r.index)

length-FirstLine :
    (buffer : List ℕ) (r : FirstLine buffer) → length buffer ≡ length r.line + suc (length r.behind)
length-FirstLine buffer r = ap length r.whole ∙ length-append r.line (b'\n' ∷ r.behind)

-- The loop ends, and no end of line stays in the buffer.
pub read_messages-IsOneLine :
    (rounds : ℕ) (buffer : List ℕ)
    → length buffer ≤ rounds
    → Gives (λ r. IsOneLine r.1) (read_messages rounds buffer)
unfolding read_messages
read_messages-IsOneLine zero buffer h = elim (index-cases buffer) [
  | inl (absent, one) ↦ rw absent (([], buffer), refl, one)
  | inr r ↦ absurd (omega (arith, length-FirstLine buffer r, h))
]
read_messages-IsOneLine (suc rounds) buffer h = elim (index-cases buffer) [
  | inl (absent, one) ↦ rw absent (([], buffer), refl, one)
  | inr r ↦
      let size = length-FirstLine buffer r in
      let fewer = length-kept r.behind in
      subst (Gives (λ t. IsOneLine t.1)) (sym (read-FirstLine rounds buffer r)) (
        Gives-bind (λ t. IsOneLine t.1) (λ t. IsOneLine t.1) (read_messages rounds (kept r.behind))
          _ (read_messages-IsOneLine rounds (kept r.behind) (omega (arith, size, fewer, h)))
          (λ t one. ((r.line ∷ t.0, t.1), refl, one)))
]

-- For a buffer of at most 102400 bytes, as many rounds as there are bytes are enough for the loop
-- of readData: the messages are the lines of the buffer in their order, without their ends and
-- with no other end of line inside, and what stays in the buffer is the rest, without an end of
-- line.
pub read_messages-AreLines :
    (rounds : ℕ) (buffer : List ℕ)
    → length buffer ≤ rounds
    → length buffer ≤ 100 * 1024
    → Gives (AreLines buffer) (read_messages rounds buffer)
unfolding read_messages
read_messages-AreLines zero buffer h small = elim (index-cases buffer) [
  | inl (absent, one) ↦ rw absent (([], buffer), refl, (refl, tt, one))
  | inr r ↦ absurd (omega (arith, length-FirstLine buffer r, h))
]
read_messages-AreLines (suc rounds) buffer h small = elim (index-cases buffer) [
  | inl (absent, one) ↦ rw absent (([], buffer), refl, (refl, tt, one))
  | inr r ↦
      let size = length-FirstLine buffer r in
      let all = kept-small r.behind (omega (arith, size, small)) in
      let step =
        read-FirstLine rounds buffer r
        ∙ ap (λ b. read_messages rounds b >>= λ t. some (r.line ∷ t.0, t.1)) all in
      subst (Gives (AreLines buffer)) (sym step) (
        Gives-bind (AreLines r.behind) (AreLines buffer) (read_messages rounds r.behind) _
          (read_messages-AreLines rounds r.behind (omega (arith, size, h))
            (omega (arith, size, small)))
          (λ t lines.
            let whole =
              append_assoc r.line (b'\n' ∷ join_lines t.0) t.1
              ∙ ap (λ l. r.line ++ b'\n' ∷ l) lines.0
              ∙ sym r.whole in
            ((r.line ∷ t.0, t.1), refl, (whole, (r.one_line, lines.1), lines.2))))
]
