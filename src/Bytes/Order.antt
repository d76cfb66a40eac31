-- ===== src/Bytes/Order.antt =====
-- Equality and the key order of byte strings.
use research_cosmos.Prelude.{
  length, ◌&&◌, ◌≡◌, refl, true, false, ◌≢◌, some, [], ◌∷◌, ◌++◌, arith, inl, inr, Bool-cases,
}
use research_cosmos.Bytes.{Bytes, equal, before, strip_prefix}

pub equal_sound : (a b : Bytes) → equal a b ≡ true → a ≡ b
unfolding equal
equal_sound [] [] h = refl
equal_sound [] (y ∷ ys) h = cc
equal_sound (x ∷ xs) [] h = cc
equal_sound (x ∷ xs) (y ∷ ys) h = ground (arith, equal_sound xs ys)

pub equal_refl : (a : Bytes) → equal a a ≡ true
unfolding equal
equal_refl [] = refl
equal_refl (x ∷ xs) = ground (arith, equal_refl xs)

pub equal_complete : (a b : Bytes) → a ≡ b → equal a b ≡ true
equal_complete a b h = rw h (equal_refl b)

pub not_equal : (a b : Bytes) → a ≢ b → equal a b ≡ false
not_equal a b h = elim (Bool-cases (equal a b)) [
  | inl e ↦ absurd (h (equal_sound a b e))
  | inr e ↦ e
]

pub before_irrefl : (a : Bytes) → before a a ≡ false
unfolding before
before_irrefl [] = refl
before_irrefl (x ∷ xs) = ground (arith, before_irrefl xs)

pub before_trans : (a b c : Bytes) → before a b ≡ true → before b c ≡ true → before a c ≡ true
unfolding before
before_trans [] [] c p q = cc
before_trans [] (y ∷ ys) [] p q = cc
before_trans [] (y ∷ ys) (z ∷ zs) p q = refl
before_trans (x ∷ xs) [] c p q = cc
before_trans (x ∷ xs) (y ∷ ys) [] p q = cc
before_trans (x ∷ xs) (y ∷ ys) (z ∷ zs) p q = ground (arith, before_trans xs ys zs)

pub before_total : (a b : Bytes) → before a b ≡ false → equal a b ≡ false → before b a ≡ true
unfolding before equal
before_total [] [] p q = cc
before_total [] (y ∷ ys) p q = cc
before_total (x ∷ xs) [] p q = refl
before_total (x ∷ xs) (y ∷ ys) p q = ground (arith, before_total xs ys)

pub before-ne : (a b : Bytes) → before a b ≡ true → equal a b ≡ false
unfolding before equal
before-ne [] [] p = cc
before-ne [] (y ∷ ys) p = refl
before-ne (x ∷ xs) [] p = refl
before-ne (x ∷ xs) (y ∷ ys) p = ground (arith, before-ne xs ys)

pub before-append : (p a b : Bytes) → before (p ++ a) (p ++ b) ≡ before a b
unfolding before
before-append [] a b = refl
before-append (x ∷ p) a b = ground (arith, before-append p a b)

pub equal-append : (p a b : Bytes) → equal (p ++ a) (p ++ b) ≡ equal a b
unfolding equal
equal-append [] a b = refl
equal-append (x ∷ p) a b = ground (arith, equal-append p a b)

pub strip_prefix-append : (p a : Bytes) → strip_prefix p (p ++ a) ≡ some a
unfolding strip_prefix
strip_prefix-append [] a = refl
strip_prefix-append (x ∷ p) a = ground (arith, strip_prefix-append p a)

pub strip_prefix_sound : (p k a : Bytes) → strip_prefix p k ≡ some a → k ≡ p ++ a
unfolding strip_prefix
strip_prefix_sound [] k a h = ground arith
strip_prefix_sound (x ∷ p) [] a h = cc
strip_prefix_sound (x ∷ p) (y ∷ k) a h = ground (arith, strip_prefix_sound p k a)

pub equal-append_words :
    (a b c d : Bytes) → length a ≡ length b → equal (a ++ c) (b ++ d) ≡ (equal a b && equal c d)
unfolding equal
equal-append_words [] [] c d h = refl
equal-append_words [] (y ∷ b) c d h = absurd (omega (arith, h))
equal-append_words (x ∷ a) [] c d h = absurd (omega (arith, h))
equal-append_words (x ∷ a) (y ∷ b) c d h =
    ground (arith, equal-append_words a b c d (omega (arith, h)))
