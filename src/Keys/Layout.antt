-- ===== src/Keys/Layout.antt =====
-- The bytes that `BuildPipedValsetOpKey` writes into its buffer, copy by copy.
use research_cosmos.Prelude.{
  ℕ, zero, suc, ◌+◌, ◌%◌, ◌<◌, ◌≡◌, ◌≢◌, refl, sym, ap, ◌∙◌, none, some, [], ◌∷◌, ◌++◌,
  append_assoc, arith, length, length-append,
}
use mathlib.Core.List.{append-nil}
use research_cosmos.Bytes.{Bytes, big_endian}
use research_cosmos.Bytes.Words.{length-big_endian}
use research_cosmos.Types.{
  ok, validator_slashed, valset_operation_undefined, PipedValsetOperation, SlashInfo, to_uint64,
}
use research_cosmos.Sdk.{Sdk, Laws}
use research_cosmos.Keys.{
  make_bytes, copy, copy_at, copy_head, copy_slash_info, slash_size, build_slash_op_key,
  build_piped_valset_op_key,
}

copy-make_bytes :
    (src : Bytes) (n : ℕ) → copy (make_bytes (length src + n)) src ≡ src ++ make_bytes n
unfolding copy
copy-make_bytes [] zero = refl
copy-make_bytes [] (suc n) = let e : 0 + suc n ≡ suc n = omega arith in rw e refl
copy-make_bytes (b ∷ src) n =
    let e : suc (length src) + n ≡ suc (length src + n) = omega arith in
    rw e (ap (λ (r : Bytes). b ∷ r) (copy-make_bytes src n))

copy_at-length : (xs ys src : Bytes) → copy_at (length xs) (xs ++ ys) src ≡ xs ++ copy ys src
unfolding copy_at
copy_at-length [] ys src = refl
copy_at-length (x ∷ xs) ys src = ap (λ (r : Bytes). x ∷ r) (copy_at-length xs ys src)

-- A copy behind what is written so far takes as much of the zeros as it is long.
fill :
    (o m n : ℕ) (xs src : Bytes)
    → o ≡ length xs
    → m ≡ length src + n
    → copy_at o (xs ++ make_bytes m) src ≡ (xs ++ src) ++ make_bytes n
fill o m n xs src eo em =
    rw (eo, em)
      (copy_at-length xs (make_bytes (length src + n)) src
        ∙ ap (λ (r : Bytes). xs ++ r) (copy-make_bytes src n)
        ∙ sym (append_assoc xs src (make_bytes n)))

-- The head of a key: the prefix, the length-prefixed address and the operation.
abbrev pub head_bytes : Bytes → PipedValsetOperation → Bytes
head_bytes val op = ((0x5 ∷ []) ++ (length val ∷ val)) ++ op ∷ []

copy_head_lem :
    (size n : ℕ) (val : Bytes) (op : PipedValsetOperation)
    → size ≡ 1 + (length val + 1) + (1 + n)
    → copy_head size val (length val ∷ val) op ≡ head_bytes val op ++ make_bytes n
unfolding copy_head
copy_head_lem size n val op e =
    rw (fill 0 size (length val + 1 + (1 + n)) [] (0x5 ∷ []) refl (omega arith)) (
      rw
        (fill 1 (length val + 1 + (1 + n)) (1 + n) (0x5 ∷ []) (length val ∷ val) refl (omega arith))
        (fill (1 + length val + 1) (1 + n) n ((0x5 ∷ []) ++ (length val ∷ val)) (op ∷ [])
          (omega arith) (omega arith)))

-- The slash data behind the head.
abbrev pub slash_bytes : SlashInfo → Bytes
slash_bytes i =
    big_endian 8 (to_uint64 i.infraction_height)
    ++ (big_endian 8 (to_uint64 i.power)
        ++ ((length i.total_slash_amount % 256) ∷ i.total_slash_amount ++ i.slash_fraction))

length-be8 : (v : ℕ) → length (big_endian 8 v) ≡ 8
length-be8 v = length-big_endian 8 v

copy_slash_info_lem :
    (o : ℕ) (i : SlashInfo) (xs : Bytes)
    → o ≡ length xs
    → copy_slash_info o i (xs ++ make_bytes (slash_size i)) ≡ xs ++ slash_bytes i
unfolding copy_slash_info
copy_slash_info_lem o i xs e =
    let tn = length i.total_slash_amount in
    let fn = length i.slash_fraction in
    let height = big_endian 8 (to_uint64 i.infraction_height) in
    let power = big_endian 8 (to_uint64 i.power) in
    let h : length height ≡ 8 = length-be8 (to_uint64 i.infraction_height) in
    let p : length power ≡ 8 = length-be8 (to_uint64 i.power) in
    let l₁ = length-append xs height in
    let l₂ = length-append (xs ++ height) power in
    let l₃ = length-append ((xs ++ height) ++ power) ((tn % 256) ∷ []) in
    let l₄ = length-append (((xs ++ height) ++ power) ++ (tn % 256) ∷ []) i.total_slash_amount in
    rw (fill o (slash_size i) (8 + (1 + (tn + fn))) xs height e (omega arith)) (
      rw
        (fill (o + 8) (8 + (1 + (tn + fn))) (1 + (tn + fn)) (xs ++ height) power (omega arith)
          (omega arith))
        (rw
          (fill (o + 8 + 8) (1 + (tn + fn)) (tn + fn) ((xs ++ height) ++ power) ((tn % 256) ∷ [])
            (omega arith) (omega arith))
          (rw
            (fill (o + 8 + 8 + 1) (tn + fn) fn (((xs ++ height) ++ power) ++ (tn % 256) ∷ [])
              i.total_slash_amount (omega arith) refl)
            (fill (o + 8 + 8 + 1 + tn) fn 0
                ((((xs ++ height) ++ power) ++ (tn % 256) ∷ []) ++ i.total_slash_amount)
                i.slash_fraction (omega arith) (omega arith)
              ∙ simp (append-nil, append_assoc)))))

-- The key of a slash: everything that `slashInfo` holds, the height before the power.
pub build_slash_op_key_lem :
    (sdk : Sdk) (val : Bytes) (i : SlashInfo)
    → Laws sdk
    → 0 < length val
    → length val < 256
    → build_piped_valset_op_key sdk validator_slashed val (some i)
      ≡ ok (0x5 ∷ length val ∷ val ++ (validator_slashed ∷ slash_bytes i))
unfolding build_piped_valset_op_key build_slash_op_key
build_slash_op_key_lem sdk val i laws pos fits = rw (laws.length_prefix_ok val pos fits) (
    rw
      (copy_head_lem (1 + length val + slash_size i + 1 + 1) (slash_size i) val validator_slashed
        (omega arith))
      (ap ok (
        copy_slash_info_lem (1 + length val + 1 + 1) i (head_bytes val validator_slashed)
          (omega (arith, length-append ((0x5 ∷ []) ++ (length val ∷ val)) (validator_slashed ∷ [])))
        ∙ simp append_assoc)))

-- The key of any other operation.
pub build_op_key_lem :
    (sdk : Sdk) (op : PipedValsetOperation) (val : Bytes)
    → Laws sdk
    → op ≢ valset_operation_undefined
    → op ≢ validator_slashed
    → 0 < length val
    → length val < 256
    → build_piped_valset_op_key sdk op val none ≡ ok (0x5 ∷ length val ∷ val ++ (op ∷ []))
unfolding build_piped_valset_op_key
build_op_key_lem sdk op val laws d s pos fits = ground (
  arith,
  laws.length_prefix_ok val pos fits,
  copy_head_lem (1 + length val + 0 + 1 + 1) 0 val op (omega arith),
  append-nil (head_bytes val op),
)
