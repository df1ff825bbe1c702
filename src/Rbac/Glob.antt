-- ===== src/Rbac/Glob.antt =====
-- What a pattern with `*` means, and the same by the parts between the stars.
use himadri.Common.{
  ℕ, ◌≡◌, ◌≢◌, ◌↔◌, refl, sym, ap, ◌∙◌, true, List, [], ◌∷◌, ◌++◌, arith, ◌==◌, Bool-cases, inl,
  inr,
}
use mathlib.Core.Path.{subst}
use native.Mathlib.Decide.{ℕ_discrete}
use himadri.Rbac.Pattern.{star, push, split, has_star}

-- `*` matches any run of characters, possibly empty; any other character itself; the whole value
-- is matched.
pub data Glob : List ℕ → List ℕ → Type 0 where
  done : Glob [] []
  lit : {c : ℕ} {p v : List ℕ} → c ≢ star → Glob p v → Glob (c ∷ p) (c ∷ v)
  skip : {p v : List ℕ} → Glob p v → Glob (star ∷ p) v
  take : {c : ℕ} {p v : List ℕ} → Glob (star ∷ p) v → Glob (star ∷ p) (c ∷ v)

-- The parts occur in the value in order, with anything before each, and nothing after the last.
abbrev pub Spread : List (List ℕ) → List ℕ → Type 0
Spread [] v = v ≡ []
Spread (part ∷ parts) v =
    (before : List ℕ) × (rest : List ℕ) × (v ≡ before ++ (part ++ rest)) × Spread parts rest

-- The first part stands at the start.
abbrev pub Parts : List (List ℕ) → List ℕ → Type 0
Parts [] v = ⊥
Parts (part ∷ parts) v = (rest : List ℕ) × (v ≡ part ++ rest) × Spread parts rest

Parts-Spread : (parts : List (List ℕ)) (v : List ℕ) → Parts parts v → Spread parts v
Parts-Spread [] v h = absurd h
Parts-Spread (part ∷ parts) v (rest, e, s) = ([], rest, e, s)

Spread-cons :
    (c : ℕ) (part : List ℕ) (parts : List (List ℕ)) (v : List ℕ)
    → Spread (part ∷ parts) v
    → Spread (part ∷ parts) (c ∷ v)
Spread-cons c part parts v (before, rest, e, s) = (c ∷ before, rest, ap (◌∷◌ c) e, s)

pub Spread-append :
    (before : List ℕ) (part : List ℕ) (parts : List (List ℕ)) (v : List ℕ)
    → Spread (part ∷ parts) v
    → Spread (part ∷ parts) (before ++ v)
Spread-append [] part parts v s = s
Spread-append (c ∷ before) part parts v s =
    Spread-cons c part parts (before ++ v) (Spread-append before part parts v s)

Parts-push :
    (c : ℕ) (parts : List (List ℕ)) (v : List ℕ) → Parts parts v → Parts (push c parts) (c ∷ v)
Parts-push c [] v h = absurd h
Parts-push c (part ∷ parts) v (rest, e, s) = (rest, ap (◌∷◌ c) e, s)

split-lit : (c : ℕ) (p : List ℕ) → c ≢ star → split (c ∷ p) ≡ push c (split p)
unfolding split
split-lit c p ne = ground arith

split-nil : split [] ≡ [] ∷ []
unfolding split
split-nil = refl

split-star : (p : List ℕ) → split (star ∷ p) ≡ [] ∷ split p
unfolding split
split-star p = refl

-- `split` never returns the empty list.
split-cons : (p : List ℕ) → (part : List ℕ) × (parts : List (List ℕ)) × (split p ≡ part ∷ parts)
unfolding split
split-cons [] = ([], [], refl)
split-cons (c ∷ p) =
    let (part, parts, e) = split-cons p in
    elim (Bool-cases (c == star)) [
      | inl h ↦ ([], split p, rw h)
      | inr h ↦ (c ∷ part, parts, rw h (ap (push c) e))
    ]

Spread-split-cons : (c : ℕ) (p v : List ℕ) → Spread (split p) v → Spread (split p) (c ∷ v)
Spread-split-cons c p v s =
    let (part, parts, e) = split-cons p in
    subst (λ l. Spread l (c ∷ v)) (sym e) (Spread-cons c part parts v (subst (λ l. Spread l v) e s))

Glob-Parts : {p v : List ℕ} → Glob p v → Parts (split p) v
Glob-Parts done = unfold split in ([], refl, refl)
Glob-Parts (lit {c} {p} {v} ne g) = rw (split-lit c p ne) (Parts-push c (split p) v (Glob-Parts g))
Glob-Parts (skip {p} {v} g) = rw (split-star p) (v, refl, Parts-Spread (split p) v (Glob-Parts g))
Glob-Parts (take {c} {p} {v} g) =
    let (rest, e, s) = subst (λ l. Parts l v) (split-star p) (Glob-Parts g) in
    rw (split-star p) (c ∷ v, refl, Spread-split-cons c p v (subst (Spread (split p)) (sym e) s))

pub Glob-star-append : (before : List ℕ) {p v : List ℕ} → Glob p v → Glob (star ∷ p) (before ++ v)
Glob-star-append [] g = skip g
Glob-star-append (c ∷ before) g = take (Glob-star-append before g)

-- The part after a literal character, taken back.
Parts-unpush :
    (c : ℕ) (part : List ℕ) (parts : List (List ℕ)) (v : List ℕ)
    → Parts (push c (part ∷ parts)) v
    → (v' : List ℕ) × (v ≡ c ∷ v') × Parts (part ∷ parts) v'
Parts-unpush c part parts v (rest, e, s) = (part ++ rest, e, (rest, refl, s))

Parts-Glob : (p v : List ℕ) → Parts (split p) v → Glob p v
Parts-Glob [] v h =
    let (rest, e, s) = subst (λ l. Parts l v) split-nil h in subst (Glob []) (sym (e ∙ s)) done
Parts-Glob (c ∷ p) v h = elim (ℕ_discrete c star) [
  | yes same ↦
      let (rest, e, s) =
        subst (λ l. Parts l v) (ap split (ap (λ d. d ∷ p) same) ∙ split-star p) h in
      let (part, parts, shape) = split-cons p in
      let (before, rest', e', s') = subst (λ l. Spread l rest) shape s in
      let inner =
        Parts-Glob p (part ++ rest')
          (subst (λ l. Parts l (part ++ rest')) (sym shape) (rest', refl, s')) in
      subst (λ d. Glob (d ∷ p) v) (sym same)
        (subst (Glob (star ∷ p)) (sym (e ∙ e')) (Glob-star-append before inner))
  | no other ↦
      let (part, parts, shape) = split-cons p in
      let (v', e, q) =
        Parts-unpush c part parts v
          (subst (λ l. Parts l v) (split-lit c p other ∙ ap (push c) shape) h) in
      subst (Glob (c ∷ p)) (sym e)
        (lit other (Parts-Glob p v' (subst (λ l. Parts l v') (sym shape) q)))
]

-- A value matches a pattern exactly when the parts between the stars occur in it, in order, the
-- first at its start and the last at its end.
pub Glob-Parts_iff : (p v : List ℕ) → Glob p v ↔ Parts (split p) v
Glob-Parts_iff p v = (Glob-Parts, Parts-Glob p v)

-- A pattern with a star has at least two parts.
pub split-has_star :
    (p : List ℕ)
    → has_star p ≡ true
    → (a : List ℕ) × (b : List ℕ) × (parts : List (List ℕ)) × (split p ≡ a ∷ b ∷ parts)
unfolding has_star
split-has_star [] h = cc
split-has_star (c ∷ p) h = elim (ℕ_discrete c star) [
  | yes same ↦
      let (b, parts, e) = split-cons p in
      ([], b, parts, ap split (ap (λ d. d ∷ p) same) ∙ (split-star p ∙ ap (◌∷◌ []) e))
  | no other ↦
      let (a, b, parts, e) = split-has_star p (ground arith) in
      (c ∷ a, b, parts, split-lit c p other ∙ ap (push c) e)
]
