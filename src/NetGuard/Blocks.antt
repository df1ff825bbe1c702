-- ===== src/NetGuard/Blocks.antt =====
-- crates/himadri-core/src/net_guard.rs, `ip_is_internal`: the addresses as numbers, and the ranges of
-- them that are internal.
use himadri.Common.{
  ℕ, ◌+◌, ◌*◌, ◌≡◌, ◌↔◌, ◌≤◌, ◌<◌, ◌⊎◌, inl, inr, Bool, true, false, ◌||◌, ◌&&◌, arith, List, [],
  ◌∷◌, ◌==◌, leb, refl,
}
use himadri.NetGuard.{Ipv4, v4, ip_is_internal, mask_c0}
use himadri.Rbac.Decision.{Any}

unfoldable pub dotted : ℕ → ℕ → ℕ → ℕ → ℕ
dotted a b c d = a * 16777216 + b * 65536 + c * 256 + d

abbrev pub InRange : ℕ → ℕ × ℕ → Type 0
InRange n (first, last) = (first ≤ n) × (n ≤ last)

-- The blocks of the registry of special-purpose addresses that are not to be reached.
abbrev pub internal_ranges : List (ℕ × ℕ)
internal_ranges =
    (dotted 127 0 0 0, dotted 127 255 255 255)
    ∷ (dotted 10 0 0 0, dotted 10 255 255 255)
    ∷ (dotted 172 16 0 0, dotted 172 31 255 255)
    ∷ (dotted 192 168 0 0, dotted 192 168 255 255)
    ∷ (dotted 169 254 0 0, dotted 169 254 255 255)
    ∷ (dotted 0 0 0 0, dotted 0 0 0 0)
    ∷ (dotted 255 255 255 255, dotted 255 255 255 255)
    ∷ (dotted 192 0 2 0, dotted 192 0 2 255)
    ∷ (dotted 198 51 100 0, dotted 198 51 100 255)
    ∷ (dotted 203 0 113 0, dotted 203 0 113 255)
    ∷ (dotted 100 64 0 0, dotted 100 127 255 255)
    ∷ []

or_iff :
    (a b : Bool) {P Q : Type 0} → ((a ≡ true) ↔ P) → ((b ≡ true) ↔ Q) → ((a || b ≡ true) ↔ (P ⊎ Q))
or_iff true b (to, from) right = (λ h. inl (to h), λ h. refl)
or_iff false b left (to, from) =
    (λ h. inr (to h), λ h. elim h [ inl p ↦ let impossible = left.1 p in cc | inr q ↦ from q ])

last_iff : (a : Bool) {P : Type 0} → ((a ≡ true) ↔ P) → ((a ≡ true) ↔ (P ⊎ ⊥))
last_iff a (to, from) = (λ h. inl (to h), λ h. elim h [ inl p ↦ from p | inr e ↦ absurd e ])

or_assoc : (a b c : Bool) → ((a || b) || c) ≡ (a || (b || c))
or_assoc true b c = refl
or_assoc false b c = refl

-- The grouping of the source's disjunction.
or_flat :
    (a b c d e f g h i j k : Bool)
    → (a || (b || c || d) || e || f || g || (h || i || j) || k)
      ≡ (a || (b || (c || (d || (e || (f || (g || (h || (i || (j || k))))))))))
or_flat a b c d e f g h i j k = simp or_assoc

module _ (a b c d : ℕ) (ha : a < 256) (hb : b < 256) (hc : c < 256) (hd : d < 256) where
  slash_8 :
      (x : ℕ) → (a == x ≡ true) ↔ InRange (dotted a b c d) (dotted x 0 0 0, dotted x 255 255 255)
  unfolding dotted
  slash_8 x = ground arith

  slash_16 :
      (x y : ℕ)
      → y < 256
      → (a == x && b == y ≡ true) ↔ InRange (dotted a b c d) (dotted x y 0 0, dotted x y 255 255)
  unfolding dotted
  slash_16 x y h = ground arith

  slash_24 :
      (x y z : ℕ)
      → y < 256
      → z < 256
      → (a == x && b == y && c == z ≡ true)
        ↔ InRange (dotted a b c d) (dotted x y z 0, dotted x y z 255)
  unfolding dotted
  slash_24 x y z h k = ground arith

  slash_32 :
      (x y z w : ℕ)
      → y < 256
      → z < 256
      → w < 256
      → (a == x && b == y && c == z && d == w ≡ true)
        ↔ InRange (dotted a b c d) (dotted x y z w, dotted x y z w)
  unfolding dotted
  slash_32 x y z w h k l = ground arith

  private_12 :
      (a == 172 && leb 16 b && leb b 31 ≡ true)
      ↔ InRange (dotted a b c d) (dotted 172 16 0 0, dotted 172 31 255 255)
  unfolding dotted
  private_12 = ground arith

  shared_10 :
      (a == 100 && mask_c0 b == 64 ≡ true)
      ↔ InRange (dotted a b c d) (dotted 100 64 0 0, dotted 100 127 255 255)
  unfolding dotted
  shared_10 = ground arith

-- An IPv4 address is internal exactly when it lies, as a number, in one of the ranges: loopback, the
-- three private ones, link-local, the unspecified and the broadcast address, the three for
-- documentation, and the shared address space.
pub ip_is_internal_iff :
    (ip : Ipv4)
    → ip.o0 < 256
    → ip.o1 < 256
    → ip.o2 < 256
    → ip.o3 < 256
    → (ip_is_internal (v4 ip) ≡ true)
      ↔ Any (InRange (dotted ip.o0 ip.o1 ip.o2 ip.o3)) internal_ranges
unfolding ip_is_internal
ip_is_internal_iff ip ha hb hc hd =
    let a = ip.o0 in
    let b = ip.o1 in
    let c = ip.o2 in
    let d = ip.o3 in
    rw (or_flat (a == 127) (a == 10)) (
      or_iff _ _ (slash_8 a b c d ha hb hc hd 127) (
        or_iff _ _ (slash_8 a b c d ha hb hc hd 10) (
          or_iff _ _ (private_12 a b c d ha hb hc hd) (
            or_iff _ _ (slash_16 a b c d ha hb hc hd 192 168 (omega arith)) (
              or_iff _ _ (slash_16 a b c d ha hb hc hd 169 254 (omega arith)) (
                or_iff _ _
                  (slash_32 a b c d ha hb hc hd 0 0 0 0 (omega arith) (omega arith) (omega arith))
                  (or_iff _ _
                    (slash_32 a b c d ha hb hc hd 255 255 255 255 (omega arith) (omega arith)
                      (omega arith))
                    (or_iff _ _ (slash_24 a b c d ha hb hc hd 192 0 2 (omega arith) (omega arith)) (
                      or_iff _ _
                        (slash_24 a b c d ha hb hc hd 198 51 100 (omega arith) (omega arith))
                        (or_iff _ _
                          (slash_24 a b c d ha hb hc hd 203 0 113 (omega arith) (omega arith))
                          (last_iff _ (shared_10 a b c d ha hb hc hd))))))))))))
