-- ===== src/Auth/Comparison.antt =====
-- crates/himadri-admin/src/middleware.rs, `constant_time_eq`: the comparison of two byte strings.
use himadri.Common.{
  ℕ, zero, suc, ◌/◌, ◌^◌, ◌<◌, ◌≡◌, ◌↔◌, refl, ap, ◌∙◌, true, false, List, [], ◌∷◌, arith, ◌==◌,
  length, All, Bool-cases, inl, inr,
}
use himadri.Auth.{bit_xor, bit_or, accumulate, constant_time_eq}

bit_xor_iff : (bits a b : ℕ) → a < 2 ^ bits → b < 2 ^ bits → (bit_xor bits a b ≡ 0) ↔ (a ≡ b)
unfolding bit_xor
bit_xor_iff zero a b h k = (λ _. omega arith, λ _. refl)
bit_xor_iff (suc bits) a b h k =
    ground (arith, bit_xor_iff bits (a / 2) (b / 2) (omega arith) (omega arith))

bit_xor-lt : (bits a b : ℕ) → bit_xor bits a b < 2 ^ bits
unfolding bit_xor
bit_xor-lt zero a b = omega arith
bit_xor-lt (suc bits) a b = omega (arith, bit_xor-lt bits (a / 2) (b / 2))

bit_or-lt : (bits a b : ℕ) → bit_or bits a b < 2 ^ bits
unfolding bit_or
bit_or-lt zero a b = omega arith
bit_or-lt (suc bits) a b = ground (arith, bit_or-lt bits (a / 2) (b / 2))

bit_or_iff :
    (bits a b : ℕ) → a < 2 ^ bits → b < 2 ^ bits → (bit_or bits a b ≡ 0) ↔ ((a ≡ 0) × (b ≡ 0))
unfolding bit_or
bit_or_iff zero a b h k = (λ _. (omega arith, omega arith), λ _. refl)
bit_or_iff (suc bits) a b h k =
    ground (arith, bit_or_iff bits (a / 2) (b / 2) (omega arith) (omega arith))

abbrev Bytes : List ℕ → Type 0
Bytes xs = All (λ x. x < 256) xs

head_same : (x y : ℕ) (xs ys : List ℕ) → x ∷ xs ≡ y ∷ ys → x ≡ y
head_same x y xs ys h = cc

tail_same : (x y : ℕ) (xs ys : List ℕ) → x ∷ xs ≡ y ∷ ys → xs ≡ ys
tail_same x y xs ys h = cc

lengths_differ : (a b : List ℕ) → (length a == length b) ≡ false → a ≡ b → ⊥
lengths_differ a b other p = let e = ap (λ l. length l) p in ground arith

accumulate_iff :
    (result : ℕ) (xs ys : List ℕ)
    → result < 256
    → Bytes xs
    → Bytes ys
    → length xs ≡ length ys
    → (accumulate result xs ys ≡ 0) ↔ ((result ≡ 0) × (xs ≡ ys))
unfolding accumulate
accumulate_iff result [] [] r hx hy same = (λ h. (h, refl), λ h. h.0)
accumulate_iff result [] (y ∷ ys) r hx hy same = absurd (omega arith)
accumulate_iff result (x ∷ xs) [] r hx hy same = absurd (omega arith)
accumulate_iff result (x ∷ xs) (y ∷ ys) r hx hy same =
    let d = bit_xor 8 x y in
    let (to_xor, from_xor) = bit_xor_iff 8 x y hx.0 hy.0 in
    let (to_or, from_or) = bit_or_iff 8 result d r (bit_xor-lt 8 x y) in
    let (to, from) =
      accumulate_iff (bit_or 8 result d) xs ys (bit_or-lt 8 result d) hx.1 hy.1 (omega arith) in
    (
      λ h.
          let (none_yet, tail) = to h in
          let (clear, equal) = to_or none_yet in
          (clear, ap (λ z. z ∷ xs) (to_xor equal) ∙ ap (λ zs. y ∷ zs) tail),
      λ h. from (from_or (h.0, from_xor (head_same x y xs ys h.1)), tail_same x y xs ys h.1),
    )

-- The comparison by accumulated differences accepts two byte strings exactly when they are equal.
pub constant_time_eq_iff :
    (a b : List ℕ)
    → All (λ x. x < 256) a
    → All (λ x. x < 256) b
    → (constant_time_eq a b ≡ true) ↔ (a ≡ b)
unfolding constant_time_eq
constant_time_eq_iff a b ha hb = elim (Bool-cases (length a == length b)) [
  | inr other ↦ rw other (λ h. absurd (cc), λ p. absurd (lengths_differ a b other p))
  | inl same ↦
      let (to, from) = accumulate_iff 0 a b (omega arith) ha hb (ground arith) in
      rw same (λ h. (to (ground arith)).1, λ p. ground (arith, from (refl, p)))
]
