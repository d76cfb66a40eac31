-- ===== src/Bytes/Words.antt =====
-- Eight-byte big-endian words.
use research_cosmos.Prelude.{
  ℕ, zero, suc, ◌+◌, ◌*◌, ◌/◌, ◌%◌, ◌^◌, ◌<◌, ◌≡◌, refl, ◌∙◌, true, [], ◌∷◌, ◌++◌, arith, length,
  length-append, ap, sym, false, ◌≢◌, ◌&&◌, ◌==◌, ltb, if◌then◌else◌, inl, inr, Bool-cases,
}
use native.Mathlib.Nat.{pow-suc, mul_assoc, mul_left_comm}
use research_cosmos.Bytes.{Bytes, big_endian, from_big_endian, before, equal}
use research_cosmos.Bytes.Order.{equal_sound, equal_refl}

pub length-big_endian : (n v : ℕ) → length (big_endian n v) ≡ n
unfolding big_endian
length-big_endian zero v = refl
length-big_endian (suc n) v =
    omega (
      arith,
      length-append (big_endian n (v / 256)) ((v % 256) ∷ []),
      length-big_endian n (v / 256),
    )

from_big_endian-append :
    (acc : ℕ) (xs ys : Bytes)
    → from_big_endian acc (xs ++ ys) ≡ from_big_endian (from_big_endian acc xs) ys
unfolding from_big_endian
from_big_endian-append acc [] ys = refl
from_big_endian-append acc (x ∷ xs) ys = from_big_endian-append (acc * 256 + x) xs ys

quotient_fits : (n v : ℕ) → v < 256 ^ suc n → v / 256 < 256 ^ n
quotient_fits n v h = omega (arith, pow-suc 256 n)

-- Decoding an encoded number gives it back, if it fits in the word.
pub from_big_endian-big_endian : (n v : ℕ) → v < 256 ^ n → from_big_endian 0 (big_endian n v) ≡ v
unfolding big_endian from_big_endian
from_big_endian-big_endian zero v h = omega arith
from_big_endian-big_endian (suc n) v h =
    from_big_endian-append 0 (big_endian n (v / 256)) ((v % 256) ∷ [])
    ∙ omega (arith, from_big_endian-big_endian n (v / 256) (quotient_fits n v h))

-- Equality of words is equality of the numbers.
pub equal-big_endian :
    (n a b : ℕ) → a < 256 ^ n → b < 256 ^ n → equal (big_endian n a) (big_endian n b) ≡ (a == b)
equal-big_endian n a b p q = elim (Bool-cases (equal (big_endian n a) (big_endian n b))) [
  | inl e ↦ rw e (
      ground (
        arith,
        ap (from_big_endian 0) (equal_sound (big_endian n a) (big_endian n b) e),
        from_big_endian-big_endian n a p,
        from_big_endian-big_endian n b q,
      ))
  | inr e ↦ rw e (ground (arith, different e))
]
  where
    different : equal (big_endian n a) (big_endian n b) ≡ false → a ≢ b
    different e same = cc (rw same at e, equal_refl (big_endian n b))

before-last :
    (xs ys : Bytes) (a b : ℕ)
    → length xs ≡ length ys
    → before (xs ++ a ∷ []) (ys ++ b ∷ []) ≡ (if before xs ys then true else equal xs ys && ltb a b)
unfolding before equal
before-last [] [] a b h = ground arith
before-last [] (y ∷ ys) a b h = absurd (omega arith)
before-last (x ∷ xs) [] a b h = absurd (omega arith)
before-last (x ∷ xs) (y ∷ ys) a b h = ground (arith, before-last xs ys a b (omega arith))

-- Words are ordered as keys the way their numbers are.
pub before-big_endian :
    (n a b : ℕ) → a < 256 ^ n → b < 256 ^ n → before (big_endian n a) (big_endian n b) ≡ ltb a b
unfolding big_endian before
before-big_endian zero a b p q = ground arith
before-big_endian (suc n) a b p q =
    before-last (big_endian n (a / 256)) (big_endian n (b / 256)) (a % 256) (b % 256)
      (length-big_endian n (a / 256) ∙ sym (length-big_endian n (b / 256)))
    ∙ rw (before-big_endian n (a / 256) (b / 256) (quotient_fits n a p) (quotient_fits n b q)) (
        rw (equal-big_endian n (a / 256) (b / 256) (quotient_fits n a p) (quotient_fits n b q))
          (ground arith))

-- What is beyond the word is cut off.
big_endian_add : (n v x q : ℕ) → x ≡ 256 ^ n * q → big_endian n (v + x) ≡ big_endian n v
unfolding big_endian
big_endian_add zero v x q e = refl
big_endian_add (suc n) v x q e =
    let y = 256 ^ n * q in
    let split : x ≡ 256 * y =
      e ∙ rw (pow-suc 256 n) (mul_assoc (256 ^ n) 256 q ∙ mul_left_comm (256 ^ n) 256 q) in
    let above : (v + x) / 256 ≡ v / 256 + y = omega (arith, split) in
    let below : (v + x) % 256 ≡ v % 256 = omega (arith, split) in
    rw (above, below, big_endian_add n (v / 256) y q refl) refl

pub big_endian_wraps : (h : ℕ) → big_endian 8 h ≡ big_endian 8 (h % 2 ^ 64)
big_endian_wraps h =
    ap (big_endian 8) (omega arith)
    ∙ big_endian_add 8 (h % 2 ^ 64) (2 ^ 64 * (h / 2 ^ 64)) (h / 2 ^ 64) refl
