-- ===== src/Sse/Lines.antt =====
-- crates/himadri-provider/src/sse.rs: how the lines of a text relate to those of its parts, and the
-- loop over the lines of two texts in turn.
use himadri.Common.{
  ℕ, ◌+◌, ◌≤◌, ◌≡◌, refl, ap, ◌∙◌, List, [], ◌∷◌, ◌++◌, Option, false, arith, Bool-cases, inl, inr,
  if◌then◌else◌, ◌==◌, All,
}
use mathlib.Core.Path.{subst}
use himadri.Sse.{
  Line, len_utf8, blank, event_line, data_line, finish, ignored, newline, byte_len, lines_of,
  push_first, Consumed, apply_line, consume, read_line, trim, max_line_bytes,
}

-- The lines of a text that is continued: those of the text, and then those that begin with its tail.
abbrev continued : List (List ℕ) × List ℕ → List ℕ → List (List ℕ) × List ℕ
continued (lines, tail) b = (lines ++ (lines_of (tail ++ b)).0, (lines_of (tail ++ b)).1)

push_first-continued :
    (c : ℕ) (p : List (List ℕ) × List ℕ) (b : List ℕ)
    → (c == newline) ≡ false
    → push_first c (continued p b) ≡ continued (push_first c p) b
unfolding lines_of
push_first-continued c ([], tail) b other = rw other refl
push_first-continued c (line ∷ lines, tail) b other = refl

pub lines_of-append : (a b : List ℕ) → lines_of (a ++ b) ≡ continued (lines_of a) b
unfolding lines_of
lines_of-append [] b = refl
lines_of-append (c ∷ cs) b = elim (Bool-cases (c == newline)) [
  | inl same ↦ rw (same, lines_of-append cs b) refl
  | inr other ↦ rw (other, lines_of-append cs b) (push_first-continued c (lines_of cs) b other)
]

push_first-tail :
    (c : ℕ) (p : List (List ℕ) × List ℕ)
    → (c == newline) ≡ false
    → lines_of p.1 ≡ ([], p.1)
    → lines_of (push_first c p).1 ≡ ([], (push_first c p).1)
unfolding lines_of
push_first-tail c ([], tail) other h = rw (other, h) refl
push_first-tail c (line ∷ lines, tail) other h = h

-- What is left after the last line has no line in it.
pub lines_of-tail : (a : List ℕ) → lines_of (lines_of a).1 ≡ ([], (lines_of a).1)
unfolding lines_of
lines_of-tail [] = refl
lines_of-tail (c ∷ cs) = elim (Bool-cases (c == newline)) [
  | inl same ↦ rw same (lines_of-tail cs)
  | inr other ↦ rw other (push_first-tail c (lines_of cs) other (lines_of-tail cs))
]

-- The first line of a text, or all of it if it has none.
abbrev first_line : List (List ℕ) × List ℕ → List ℕ
first_line ([], tail) = tail
first_line (line ∷ lines, tail) = line

push_first-longer :
    (c : ℕ) (p : List (List ℕ) × List ℕ)
    → byte_len (first_line (push_first c p)) ≡ len_utf8 c + byte_len (first_line p)
unfolding byte_len
push_first-longer c ([], tail) = refl
push_first-longer c (line ∷ lines, tail) = refl

push_first-first :
    (c : ℕ) (p : List (List ℕ) × List ℕ) (b : List ℕ)
    → (c == newline) ≡ false
    → byte_len p.1 ≤ byte_len (first_line (lines_of (p.1 ++ b)))
    → byte_len (push_first c p).1 ≤ byte_len (first_line (lines_of ((push_first c p).1 ++ b)))
unfolding lines_of byte_len
push_first-first c ([], tail) b other h =
    rw other (rw (push_first-longer c (lines_of (tail ++ b))) (omega (arith, h)))
push_first-first c (line ∷ lines, tail) b other h = h

-- The tail of a text is the beginning of the line that goes on after it.
first_line-tail :
    (a b : List ℕ)
    → byte_len (lines_of a).1 ≤ byte_len (first_line (lines_of ((lines_of a).1 ++ b)))
unfolding lines_of byte_len
first_line-tail [] b = omega arith
first_line-tail (c ∷ cs) b = elim (Bool-cases (c == newline)) [
  | inl same ↦ rw same (first_line-tail cs b)
  | inr other ↦ rw other (push_first-first c (lines_of cs) b other (first_line-tail cs b))
]

-- Every line of the text, also the unfinished one, is short enough to be buffered.
unfoldable pub Fits : List ℕ → Type 0
Fits a =
    All (λ l. byte_len l ≤ max_line_bytes) (lines_of a).0
    × (byte_len (lines_of a).1 ≤ max_line_bytes)

first_line-le :
    (p : List (List ℕ) × List ℕ)
    → All (λ l. byte_len l ≤ max_line_bytes) p.0
    → byte_len p.1 ≤ max_line_bytes
    → byte_len (first_line p) ≤ max_line_bytes
first_line-le ([], tail) short h = h
first_line-le (line ∷ lines, tail) short h = short.0

All-append_right :
    (ls ms : List (List ℕ))
    → All (λ l. byte_len l ≤ max_line_bytes) (ls ++ ms)
    → All (λ l. byte_len l ≤ max_line_bytes) ms
All-append_right [] ms h = h
All-append_right (l ∷ ls) ms h = All-append_right ls ms h.1

pub Fits-rest : (a b : List ℕ) → Fits (a ++ b) → Fits ((lines_of a).1 ++ b)
unfolding Fits
Fits-rest a b h =
    let (short, tail) =
      subst (λ p. All (λ l. byte_len l ≤ max_line_bytes) p.0 × (byte_len p.1 ≤ max_line_bytes))
        (lines_of-append a b) h in
    (All-append_right (lines_of a).0 _ short, tail)

pub Fits-tail : (a b : List ℕ) → Fits (a ++ b) → byte_len (lines_of a).1 ≤ max_line_bytes
unfolding Fits
Fits-tail a b h =
    let (short, tail) = Fits-rest a b h in
    omega (arith, first_line-tail a b, first_line-le (lines_of ((lines_of a).1 ++ b)) short tail)

-- The lines of the second list are read if those of the first do not end the stream.
abbrev pub follow : Consumed → (Option (List ℕ) → Consumed) → Consumed
follow c later =
    if c.ended
    then c
    else record (later c.current_event) { events = c.events ++ (later c.current_event).events }

apply_line-follow :
    (line : Line) (event : Option (List ℕ)) (first second : Option (List ℕ) → Consumed)
    → apply_line line event (λ e. follow (first e) second)
      ≡ follow (apply_line line event first) second
apply_line-follow blank event first second = refl
apply_line-follow (event_line e) event first second = refl
apply_line-follow (data_line d) event first second = elim (Bool-cases (first event).ended) [
  | inl b ↦ rw b refl
  | inr b ↦ rw b refl
]
apply_line-follow finish event first second = refl
apply_line-follow ignored event first second = refl

pub consume-append :
    (ls ms : List (List ℕ)) (event : Option (List ℕ))
    → consume (ls ++ ms) event ≡ follow (consume ls event) (consume ms)
unfolding consume
consume-append [] ms event = refl
consume-append (line ∷ ls) ms event =
    ap (apply_line (read_line (trim line)) event) (λ i e. consume-append ls ms e i)
    ∙ apply_line-follow (read_line (trim line)) event (consume ls) (consume ms)
