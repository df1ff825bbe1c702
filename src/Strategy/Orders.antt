-- ===== src/Strategy/Orders.antt =====
-- crates/himadri/src/strategy.rs: the orders that only rearrange the targets.
use mathlib.Core.List.{Perm}
use mathlib.Core.List.Perm
use himadri.Common.{
  ℕ, zero, suc, ◌≤◌, ◌≡◌, refl, Bool, List, [], ◌∷◌, arith, leb, length, Bool-cases, inl, inr, All,
  All-map,
}
use himadri.Types.{Target}
use himadri.Strategy.Select.{
  Floats, total_weight, take_chosen, take_weighted, load_loop, sort_insert, sort_by,
}

module _ {A : Type 0} (not_after : A → A → Bool) where
  sort_insert-perm : (x : A) (xs : List A) → Perm (sort_insert not_after x xs) (x ∷ xs)
  unfolding sort_insert
  sort_insert-perm x [] = Perm.refl (x ∷ [])
  sort_insert-perm x (y ∷ ys) =
      let rest = sort_insert-perm x ys in
      elim (Bool-cases (not_after x y)) [
        | inl before ↦ rw before (Perm.refl (x ∷ y ∷ ys))
        | inr after ↦ rw after (Perm.trans (Perm.cons y rest) (Perm.swap x y ys))
      ]

  pub sort_by-perm : (xs : List A) → Perm (sort_by not_after xs) xs
  unfolding sort_by
  sort_by-perm [] = Perm.refl []
  sort_by-perm (x ∷ xs) =
      Perm.trans (sort_insert-perm x (sort_by not_after xs)) (Perm.cons x (sort_by-perm xs))

-- The values of a measure do not fall along the list.
abbrev pub Ascending : {A : Type 0} → (A → ℕ) → List A → Type 0
Ascending key [] = Unit
Ascending key (x ∷ xs) = All (λ y. key x ≤ key y) xs × Ascending key xs

module _ {A : Type 0} (key : A → ℕ) where
  abbrev by_key : A → A → Bool
  by_key a b = leb (key a) (key b)

  sort_insert-All :
      (P : A → Type 0) (x : A) (xs : List A) → P x → All P xs → All P (sort_insert by_key x xs)
  unfolding sort_insert
  sort_insert-All P x [] p h = (p, tt)
  sort_insert-All P x (y ∷ ys) p (q, h) =
      let rest = sort_insert-All P x ys p h in
      elim (Bool-cases (leb (key x) (key y))) [
        | inl before ↦ rw before (p, (q, h))
        | inr after ↦ rw after (q, rest)
      ]

  sort_insert-Ascending :
      (x : A) (xs : List A) → Ascending key xs → Ascending key (sort_insert by_key x xs)
  unfolding sort_insert
  sort_insert-Ascending x [] h = (tt, tt)
  sort_insert-Ascending x (y ∷ ys) (least, h) =
      let rest = sort_insert-Ascending x ys h in
      elim (Bool-cases (leb (key x) (key y))) [
        | inl before ↦
            let le : key x ≤ key y = ground arith in
            rw before ((le, All-map ys (λ z (k : key y ≤ key z). omega arith) least), (least, h))
        | inr after ↦
            let le : key y ≤ key x = ground arith in
            rw after (sort_insert-All (λ z. key y ≤ key z) x ys le least, rest)
      ]

  pub sort_by-Ascending : (xs : List A) → Ascending key (sort_by by_key xs)
  unfolding sort_by
  sort_by-Ascending [] = tt
  sort_by-Ascending (x ∷ xs) = sort_insert-Ascending x (sort_by by_key xs) (sort_by-Ascending xs)

module _ {F : Type 0} (ops : Floats F) where
  take_chosen-perm :
      (r : F) (x : Target F) (xs : List (Target F))
      → Perm (x ∷ xs) ((take_chosen ops r x xs).0 ∷ (take_chosen ops r x xs).1)
  unfolding take_chosen
  take_chosen-perm r x [] = Perm.refl (x ∷ [])
  take_chosen-perm r x (y ∷ ys) =
      let r' = ops.sub_f r (ops.max_f x.weight ops.zero_f) in
      let later = take_chosen-perm r' y ys in
      elim (Bool-cases (ops.le_f r' ops.zero_f)) [
        | inl here ↦ rw here (Perm.refl (x ∷ y ∷ ys))
        | inr on ↦ rw on (Perm.trans (Perm.cons x later) (Perm.swap _ x _))
      ]

  take_weighted-perm :
      (draw : F → F) (x : Target F) (xs : List (Target F))
      → Perm (x ∷ xs) ((take_weighted ops draw x xs).0 ∷ (take_weighted ops draw x xs).1)
  unfolding take_weighted
  take_weighted-perm draw x xs =
      let total = total_weight ops ops.zero_f (x ∷ xs) in
      elim (Bool-cases (ops.le_f total ops.zero_f)) [
        | inl none ↦ rw none (Perm.refl (x ∷ xs))
        | inr some ↦ rw some (take_chosen-perm (draw total) x xs)
      ]

  length-take_chosen :
      (r : F) (x : Target F) (xs : List (Target F)) → length (take_chosen ops r x xs).1 ≡ length xs
  unfolding take_chosen
  length-take_chosen r x [] = refl
  length-take_chosen r x (y ∷ ys) =
      let r' = ops.sub_f r (ops.max_f x.weight ops.zero_f) in
      let later = length-take_chosen r' y ys in
      elim (Bool-cases (ops.le_f r' ops.zero_f)) [
        | inl here ↦ rw here
        | inr on ↦ rw on (omega (arith, later))
      ]

  pub length-take_weighted :
      (draw : F → F) (x : Target F) (xs : List (Target F))
      → length (take_weighted ops draw x xs).1 ≡ length xs
  unfolding take_weighted
  length-take_weighted draw x xs =
      let total = total_weight ops ops.zero_f (x ∷ xs) in
      elim (Bool-cases (ops.le_f total ops.zero_f)) [
        | inl none ↦ rw none
        | inr some ↦ rw some (length-take_chosen (draw total) x xs)
      ]

  pub load_loop-perm :
      (draw : ℕ → F → F) (n : ℕ) (ts : List (Target F))
      → length ts ≡ n
      → Perm (load_loop ops draw n ts) ts
  unfolding load_loop
  load_loop-perm draw zero [] h = Perm.refl []
  load_loop-perm draw zero (x ∷ xs) h = absurd (omega arith)
  load_loop-perm draw (suc n) [] h = absurd (omega arith)
  load_loop-perm draw (suc n) (x ∷ xs) h =
      let taken = take_weighted ops (draw n) x xs in
      let rest : Perm (load_loop ops draw n taken.1) taken.1 =
        load_loop-perm draw n taken.1 (omega (arith, length-take_weighted (draw n) x xs)) in
      Perm.trans (Perm.cons taken.0 rest) (Perm.symm (take_weighted-perm (draw n) x xs))
