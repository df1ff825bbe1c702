-- ===== src/Rbac/Greedy.antt =====
-- crates/himadri-core/src/rbac.rs: the matcher, which looks for each part at its first occurrence only,
-- and `Glob`.
use himadri.Common.{
  String, ℕ, ◌+◌, ◌-◌, ◌≤◌, ◌<◌, ◌≡◌, ◌↔◌, refl, sym, ap, ◌∙◌, true, false, List, [], ◌∷◌, ◌++◌,
  arith, Bool-cases, Option-cases, inl, inr, some, length, length-append,
}
use mathlib.Core.Path.{subst}
use mathlib.Core.List.{append_assoc, append-nil, tail-eq_of_cons-eq}
use mathlib.Core.Option.{some-injective}
use himadri.Rbac.Pattern.{
  star, has_star, eq_codes, strip_prefix, find_after, ends_with, match_parts, pattern_matches,
  codes,
}
use himadri.Rbac.Glob.{
  Glob, done, lit, skip, take, Spread, Parts, Spread-append, Glob-star-append, Glob-Parts_iff,
  split-has_star,
}

pub eq_codes_iff : (xs ys : List ℕ) → (eq_codes xs ys ≡ true) ↔ (xs ≡ ys)
unfolding eq_codes
eq_codes_iff [] [] = (λ _. refl, λ _. refl)
eq_codes_iff [] (y ∷ ys) = (λ h. cc, λ h. cc)
eq_codes_iff (x ∷ xs) [] = (λ h. cc, λ h. cc)
eq_codes_iff (x ∷ xs) (y ∷ ys) = ground (arith, eq_codes_iff xs ys)

strip_prefix_sound : (part v rest : List ℕ) → strip_prefix part v ≡ some rest → v ≡ part ++ rest
unfolding strip_prefix
strip_prefix_sound [] v rest h = some-injective _ _ h
strip_prefix_sound (p ∷ ps) [] rest h = cc
strip_prefix_sound (p ∷ ps) (x ∷ xs) rest h = ground (arith, strip_prefix_sound ps xs rest)

pub strip_prefix-append : (part rest : List ℕ) → strip_prefix part (part ++ rest) ≡ some rest
unfolding strip_prefix
strip_prefix-append [] rest = refl
strip_prefix-append (p ∷ ps) rest = ground (arith, strip_prefix-append ps rest)

pub find_after_sound :
    (part v rest : List ℕ)
    → find_after part v ≡ some rest
    → (before : List ℕ) × (v ≡ before ++ (part ++ rest))
unfolding find_after
find_after_sound part [] rest h = ([], strip_prefix_sound part [] rest h)
find_after_sound part (x ∷ xs) rest h = elim (Option-cases (strip_prefix part (x ∷ xs))) [
  | inl missed ↦
      let (before, e) = find_after_sound part xs rest (rw (missed, find_after) at h) in
      (x ∷ before, ap (◌∷◌ x) e)
  | inr (r, found) ↦
      ([], strip_prefix_sound part (x ∷ xs) rest (found ∙ (rw (found, find_after) at h)))
]

-- Of two splittings of one list, the earlier leaves more.
longer_rest :
    (a c r rest : List ℕ)
    → a ++ r ≡ c ++ rest
    → length a ≤ length c
    → (q : List ℕ) × (r ≡ q ++ rest)
longer_rest [] c r rest e h = (c, e)
longer_rest (x ∷ a) [] r rest e h = elim h [ ]
longer_rest (x ∷ a) (y ∷ c) r rest e h = longer_rest a c r rest (tail-eq_of_cons-eq e) (omega arith)

find_after_first : (part v r : List ℕ) → strip_prefix part v ≡ some r → find_after part v ≡ some r
unfolding find_after
find_after_first part [] r h = h
find_after_first part (x ∷ xs) r h = rw (h, find_after)

pub find_after_complete :
    (part before rest : List ℕ)
    → (q : List ℕ) × (find_after part (before ++ (part ++ rest)) ≡ some (q ++ rest))
unfolding find_after
find_after_complete part [] rest =
    ([], find_after_first part (part ++ rest) rest (strip_prefix-append part rest))
find_after_complete part (x ∷ before) rest =
    let v = x ∷ (before ++ (part ++ rest)) in
    elim (Option-cases (strip_prefix part v)) [
      | inl missed ↦
          let (q, e) = find_after_complete part before rest in (q, rw (missed, find_after) e)
      | inr (r, found) ↦
          let (q, e) =
            longer_rest part (x ∷ (before ++ part)) r rest
              (sym (strip_prefix_sound part v r found)
                ∙ ap (◌∷◌ x) (sym (append_assoc before part rest)))
              (omega (arith, length-append before part)) in
          (q, find_after_first part v r found ∙ ap some e)
    ]

ends_with_sound :
    (part v : List ℕ) → ends_with part v ≡ true → (before : List ℕ) × (v ≡ before ++ part)
unfolding ends_with
ends_with_sound part [] h = ([], sym ((eq_codes_iff part []).0 h))
ends_with_sound part (x ∷ xs) h = elim (Bool-cases (eq_codes part (x ∷ xs))) [
  | inl same ↦ ([], sym ((eq_codes_iff part (x ∷ xs)).0 same))
  | inr other ↦
      let (before, e) = ends_with_sound part xs (ground arith) in (x ∷ before, ap (◌∷◌ x) e)
]

ends_with_self : (part : List ℕ) → ends_with part part ≡ true
unfolding ends_with
ends_with_self [] = (eq_codes_iff [] []).1 refl
ends_with_self (p ∷ ps) = rw ((eq_codes_iff (p ∷ ps) (p ∷ ps)).1 refl)

ends_with-append : (part before : List ℕ) → ends_with part (before ++ part) ≡ true
unfolding ends_with
ends_with-append part [] = ends_with_self part
ends_with-append part (x ∷ before) = ground (arith, ends_with-append part before)

-- The loop from a later part on.
loop_sound :
    (i last : ℕ) (part : List ℕ) (parts : List (List ℕ)) (v : List ℕ)
    → 0 < i
    → i + length parts ≡ last
    → match_parts i last (part ∷ parts) v ≡ true
    → Spread (part ∷ parts) v
unfolding match_parts
loop_sound i last [] [] v pos e h = (v, [], sym (append-nil v), refl)
loop_sound i last [] (q ∷ parts) v pos e h =
    ([], v, refl, loop_sound (i + 1) last q parts v (omega arith) (omega arith) h)
loop_sound i last (c ∷ part) [] v pos e h =
    let (before, found) = ends_with_sound (c ∷ part) v (ground arith) in
    (before, [], found ∙ ap (◌++◌ before) (sym (append-nil (c ∷ part))), refl)
loop_sound i last (c ∷ part) (q ∷ parts) v pos e h = elim (Option-cases (find_after (c ∷ part) v)) [
  | inl missed ↦ absurd (ground arith)
  | inr (rest, found) ↦
      let (before, where_found) = find_after_sound (c ∷ part) v rest found in
      (
        before,
        rest,
        where_found,
        loop_sound (i + 1) last q parts rest (omega arith) (omega arith) (ground arith),
      )
]

loop_complete :
    (i last : ℕ) (part : List ℕ) (parts : List (List ℕ)) (v : List ℕ)
    → 0 < i
    → i + length parts ≡ last
    → Spread (part ∷ parts) v
    → match_parts i last (part ∷ parts) v ≡ true
unfolding match_parts
loop_complete i last [] [] v pos e s = refl
loop_complete i last [] (q ∷ parts) v pos e (before, rest, eq, s) =
    loop_complete (i + 1) last q parts v (omega arith) (omega arith)
      (subst (Spread (q ∷ parts)) (sym eq) (Spread-append before q parts rest s))
loop_complete i last (c ∷ part) [] v pos e (before, rest, eq, s) =
    let here : v ≡ before ++ (c ∷ part) =
      eq ∙ ap (λ r. before ++ ((c ∷ part) ++ r)) s ∙ ap (◌++◌ before) (append-nil (c ∷ part)) in
    ground (arith, ends_with-append (c ∷ part) before)
loop_complete i last (c ∷ part) (q ∷ parts) v pos e (before, rest, eq, s) =
    let (skipped, found) = find_after_complete (c ∷ part) before rest in
    let ih =
      loop_complete (i + 1) last q parts (skipped ++ rest) (omega arith) (omega arith)
        (Spread-append skipped q parts rest s) in
    ground (arith, found, ih)

-- The whole loop, on a pattern with a star.
match_parts_iff :
    (a b : List ℕ) (parts : List (List ℕ)) (v : List ℕ)
    → (match_parts 0 (length (a ∷ b ∷ parts) - 1) (a ∷ b ∷ parts) v ≡ true)
      ↔ Parts (a ∷ b ∷ parts) v
unfolding match_parts
match_parts_iff [] b parts v = (
  λ h.
      (v, refl, loop_sound 1 (length ([] ∷ b ∷ parts) - 1) b parts v (omega arith) (omega arith) h),
  λ (rest, e, s).
      loop_complete 1 (length ([] ∷ b ∷ parts) - 1) b parts v (omega arith) (omega arith)
        (subst (Spread (b ∷ parts)) (sym e) s),
)
match_parts_iff (c ∷ a) b parts v = (
  λ h. elim (Option-cases (strip_prefix (c ∷ a) v)) [
    | inl missed ↦ absurd (ground arith)
    | inr (rest, found) ↦ (
      rest,
      strip_prefix_sound (c ∷ a) v rest found,
      loop_sound 1 (length ((c ∷ a) ∷ b ∷ parts) - 1) b parts rest (omega arith) (omega arith)
          (ground arith),
    )
  ],
  λ (rest, e, s). ground (
    arith,
    strip_prefix-append (c ∷ a) rest,
    loop_complete 1 (length ((c ∷ a) ∷ b ∷ parts) - 1) b parts rest (omega arith) (omega arith) s,
  ),
)

Glob-literal : (p v : List ℕ) → has_star p ≡ false → Glob p v → p ≡ v
unfolding has_star
Glob-literal [] v h done = refl
Glob-literal (c ∷ p) v h (lit ne g) = ap (◌∷◌ c) (Glob-literal p _ (ground arith) g)
Glob-literal (c ∷ p) v h (skip g) = absurd (ground arith)
Glob-literal (c ∷ p) v h (take g) = absurd (ground arith)

literal-Glob : (p : List ℕ) → has_star p ≡ false → Glob p p
unfolding has_star
literal-Glob [] h = done
literal-Glob (c ∷ p) h = lit (ground arith) (literal-Glob p (ground arith))

-- `pattern_matches` accepts a value exactly when the whole value can be read from the pattern with
-- each `*` standing for any run of characters and every other character for itself.
pub pattern_matches_iff :
    (pattern value : String)
    → (pattern_matches pattern value ≡ true) ↔ Glob (codes pattern) (codes value)
unfolding pattern_matches
pattern_matches_iff pattern value =
    let p = codes pattern in
    let v = codes value in
    elim (Bool-cases (eq_codes p (star ∷ []))) [
      | inl all ↦ (
        λ h.
            subst (λ q. Glob q v) (sym ((eq_codes_iff p (star ∷ [])).0 all))
              (subst (Glob (star ∷ [])) (append-nil v) (Glob-star-append v done)),
        λ g. rw all,
      )
      | inr not_all ↦ elim (Bool-cases (has_star p)) [
        | inr literal ↦ (
          λ h. subst (Glob p) ((eq_codes_iff p v).0 (ground arith)) (literal-Glob p literal),
          λ g. rw (not_all, literal) ((eq_codes_iff p v).1 (Glob-literal p v literal g)),
        )
        | inl starred ↦
            let (a, b, parts, shape) = split-has_star p starred in
            let loop = match_parts_iff a b parts v in
            (
              λ h.
                  (Glob-Parts_iff p v).1 (
                    subst (λ l. Parts l v) (sym shape)
                      (loop.0 (rw (not_all, starred, shape) at h))),
              λ g.
                  rw (not_all, starred, shape)
                    (loop.1 (subst (λ l. Parts l v) shape ((Glob-Parts_iff p v).0 g))),
            )
      ]
    ]
