-- ===== src/Keeper/Piped/RoundTrip.antt =====
-- The keys of x/meshsecurity/types/keys.go as x/meshsecurity/keeper/valset_updates.go reads them.
use research_cosmos.Prelude.{
  ℕ, ◌+◌, ◌-◌, ◌%◌, ◌^◌, ◌<◌, ◌≤◌, ◌≡◌, ◌≢◌, refl, ap, ◌∙◌, none, some, [], ◌∷◌, ◌++◌, append_assoc,
  arith, length, length-append, take-append_length, drop-append_length, leb, true, false,
}
use mathlib.Core.List.{append-nil}
use research_cosmos.Prelude.Int.{ℤ, pos, negsuc, pos_part, neg_part}
use research_cosmos.Bytes.{Bytes, big_endian, from_big_endian}
use research_cosmos.Bytes.Words.{length-big_endian, from_big_endian-big_endian}
use research_cosmos.Types.{
  ok, validator_slashed, valset_operation_undefined, PipedValsetOperation, SlashInfo, to_uint64,
  to_int64,
}
use research_cosmos.Sdk.{Sdk, Laws}
use research_cosmos.Keys.{build_piped_valset_op_key}
use research_cosmos.Keys.Layout.{slash_bytes, build_slash_op_key_lem, build_op_key_lem}
use research_cosmos.Keeper.Piped.{byte_at, slice, byte_add, decode_slash_info, decode_piped_key}

-- The values of an `int64`.
abbrev pub IsInt64 : ℤ → Type 0
IsInt64 x = (pos_part x < 2 ^ 63) × (neg_part x ≤ 2 ^ 63)

to_int64-to_uint64 : (x : ℤ) → IsInt64 x → to_int64 (to_uint64 x) ≡ x
unfolding to_int64 to_uint64
to_int64-to_uint64 (pos n) h = ground arith
to_int64-to_uint64 (negsuc n) h = ground arith

to_uint64_bound : (x : ℤ) → to_uint64 x < 2 ^ 64
unfolding to_uint64
to_uint64_bound (pos n) = omega arith
to_uint64_bound (negsuc n) = omega arith

word_round_trip :
    (x : ℤ) → IsInt64 x → to_int64 (from_big_endian 0 (big_endian 8 (to_uint64 x))) ≡ x
word_round_trip x h =
    rw (from_big_endian-big_endian 8 (to_uint64 x) (to_uint64_bound x)) (to_int64-to_uint64 x h)

-- The byte behind a part of a key, and the part between two others.
byte_at-append : (o b : ℕ) (xs zs : Bytes) → o ≡ length xs → byte_at o (xs ++ b ∷ zs) ≡ ok b
unfolding byte_at
byte_at-append o b xs zs e = rw (e, byte_at, drop-append_length xs (b ∷ zs)) refl

slice-append :
    (lo hi : ℕ) (key xs ys zs : Bytes)
    → key ≡ xs ++ (ys ++ zs)
    → lo ≡ length xs
    → hi ≡ lo + length ys
    → slice lo hi key ≡ ok ys
unfolding slice
slice-append lo hi key xs ys zs ek el eh =
    let l₁ = length-append xs (ys ++ zs) in
    let l₂ = length-append ys zs in
    let width : hi - lo ≡ length ys = omega arith in
    let first : leb lo hi ≡ true = ground arith in
    let second : leb hi (length key) ≡ true = rw ek (ground (arith, l₁, l₂)) in
    rw (first, second, width, ek, el, drop-append_length xs (ys ++ zs))
      (ap ok (take-append_length ys zs))

-- A key behind the prefix, by its parts.
abbrev slash_key : Bytes → ℕ → Bytes → Bytes → Bytes → Bytes → Bytes
slash_key val op h p a f = length val ∷ val ++ (op ∷ h ++ (p ++ ((length a % 256) ∷ a ++ f)))

module _ (val h p a f : Bytes) (op : ℕ) (lh : length h ≡ 8) (lp : length p ≡ 8)
    (fits : length val + 19 + length a < 256) (some_text : 0 < length a + length f) where
  length-slash_key : length (slash_key val op h p a f) ≡ length val + 19 + length a + length f
  length-slash_key = omega (
    arith,
    length-append val (op ∷ h ++ (p ++ ((length a % 256) ∷ a ++ f))),
    length-append h (p ++ ((length a % 256) ∷ a ++ f)),
    length-append p ((length a % 256) ∷ a ++ f),
    length-append a f,
  )

  decode_layout :
      decode_slash_info (length val) (slash_key val op h p a f)
      ≡ ok (record {
        infraction_height = to_int64 (from_big_endian 0 p);
        power = to_int64 (from_big_endian 0 h);
        total_slash_amount = a;
        slash_fraction = f;
      })
  unfolding decode_slash_info
  decode_layout =
      let key = slash_key val op h p a f in
      let an = length val in
      let tn = length a in
      let l₁ = length-append val (op ∷ []) in
      let l₂ = length-append (val ++ op ∷ []) h in
      let l₃ = length-append ((val ++ op ∷ []) ++ h) p in
      let l₄ = length-append (((val ++ op ∷ []) ++ h) ++ p) ((tn % 256) ∷ []) in
      let l₅ = length-append ((((val ++ op ∷ []) ++ h) ++ p) ++ (tn % 256) ∷ []) a in
      let long : leb (length key) (1 + an + 1 + 8 + 8 + 1) ≡ false =
        ground (arith, length-slash_key) in
      let amount_len : byte_at (byte_add an 18) key ≡ ok tn =
        let e : key ≡ (an ∷ ((val ++ op ∷ []) ++ h) ++ p) ++ (tn % 256) ∷ (a ++ f) =
          simp append_assoc in
        let m : tn % 256 ≡ tn = omega arith in
        rw e (
          byte_at-append (byte_add an 18) (tn % 256) (an ∷ ((val ++ op ∷ []) ++ h) ++ p) (a ++ f)
            (omega arith)
          ∙ ap ok m) in
      let first : slice (byte_add an 2) (byte_add an 10) key ≡ ok h =
        slice-append (byte_add an 2) (byte_add an 10) key (an ∷ val ++ op ∷ []) h
          (p ++ ((tn % 256) ∷ a ++ f)) (simp append_assoc) (omega arith) (omega arith) in
      let second : slice (byte_add an 10) (byte_add an 18) key ≡ ok p =
        slice-append (byte_add an 10) (byte_add an 18) key (an ∷ (val ++ op ∷ []) ++ h) p
          ((tn % 256) ∷ a ++ f) (simp append_assoc) (omega arith) (omega arith) in
      let amount : slice (byte_add an 19) (byte_add (byte_add an 19) tn) key ≡ ok a =
        slice-append (byte_add an 19) (byte_add (byte_add an 19) tn) key
          (an ∷ (((val ++ op ∷ []) ++ h) ++ p) ++ (tn % 256) ∷ []) a f (simp append_assoc)
          (omega arith) (omega arith) in
      let fraction : slice (byte_add (byte_add an 19) tn) (length key) key ≡ ok f =
        slice-append (byte_add (byte_add an 19) tn) (length key) key
          (an ∷ ((((val ++ op ∷ []) ++ h) ++ p) ++ (tn % 256) ∷ []) ++ a) f []
          (simp (append_assoc, append-nil)) (omega arith) (omega (arith, length-slash_key)) in
      rw (long, amount_len, first, second, amount, fraction)

byte_at_zero : (b : ℕ) (r : Bytes) → byte_at 0 (b ∷ r) ≡ ok b
unfolding byte_at
byte_at_zero b r = refl

-- The address and the operation of a key with anything behind them.
module _ (val rest : Bytes) (op : ℕ) (fits : length val + 1 < 256) where
  address_part : slice 1 (byte_add (length val) 1) (length val ∷ val ++ (op ∷ rest)) ≡ ok val
  address_part =
      slice-append 1 (byte_add (length val) 1) (length val ∷ val ++ (op ∷ rest)) (length val ∷ [])
        val (op ∷ rest) refl refl (omega arith)

  op_part : byte_at (byte_add (length val) 1) (length val ∷ val ++ (op ∷ rest)) ≡ ok op
  op_part = byte_at-append (byte_add (length val) 1) op (length val ∷ val) rest (omega arith)

  decode_other :
      op ≢ validator_slashed
      → decode_piped_key (length val ∷ val ++ (op ∷ rest))
        ≡ ok (record { val_address = val; op = op; slash_info = none })
  unfolding decode_piped_key
  decode_other d =
      ground (arith, address_part, op_part, byte_at_zero (length val) (val ++ (op ∷ rest)))

decode_slash :
    (val : Bytes) (i : SlashInfo)
    → length val + 19 + length i.total_slash_amount < 256
    → 0 < length i.total_slash_amount + length i.slash_fraction
    → IsInt64 i.infraction_height
    → IsInt64 i.power
    → decode_piped_key (length val ∷ val ++ (validator_slashed ∷ slash_bytes i))
      ≡ ok (record {
        val_address = val;
        op = validator_slashed;
        slash_info = some (record i { infraction_height = i.power; power = i.infraction_height });
      })
unfolding decode_piped_key
decode_slash val i fits texts h p =
    let height = big_endian 8 (to_uint64 i.infraction_height) in
    let power = big_endian 8 (to_uint64 i.power) in
    let key = length val ∷ val ++ (validator_slashed ∷ slash_bytes i) in
    let decoded =
      decode_layout val height power i.total_slash_amount i.slash_fraction validator_slashed
        (length-big_endian 8 (to_uint64 i.infraction_height))
        (length-big_endian 8 (to_uint64 i.power)) fits texts in
    rw (
      byte_at_zero (length val) (val ++ (validator_slashed ∷ slash_bytes i)),
      address_part val (slash_bytes i) validator_slashed (omega arith),
      op_part val (slash_bytes i) validator_slashed (omega arith),
      decoded,
      word_round_trip i.infraction_height h,
      word_round_trip i.power p,
    )

-- With the laws of the SDK: a defined operation other than a slash is read back from the key that
-- it was written to, with its validator, for addresses of 1 to 254 bytes.
pub decode_piped_key-build_piped_valset_op_key :
    (sdk : Sdk) (op : PipedValsetOperation) (val : Bytes)
    → Laws sdk
    → op ≢ valset_operation_undefined
    → op ≢ validator_slashed
    → 0 < length val
    → length val < 255
    → (key : Bytes) × (build_piped_valset_op_key sdk op val none ≡ ok (0x5 ∷ key))
      × (decode_piped_key key ≡ ok (record { val_address = val; op = op; slash_info = none }))
decode_piped_key-build_piped_valset_op_key sdk op val laws d s nonempty fits = (
  length val ∷ val ++ (op ∷ []),
  build_op_key_lem sdk op val laws d s nonempty (omega arith),
  decode_other val [] op (omega arith) s,
)

-- With the laws of the SDK: a slash is read back from the key that it was written to with its
-- validator and its two texts, but with the infraction height and the power exchanged. The
-- address is not empty, the numbers are `int64` values, the texts are not both empty, and the
-- lengths of the address and of the amount add up to less than 237.
pub decode_piped_key-build_slash_op_key :
    (sdk : Sdk) (val : Bytes) (i : SlashInfo)
    → Laws sdk
    → 0 < length val
    → length val + 19 + length i.total_slash_amount < 256
    → 0 < length i.total_slash_amount + length i.slash_fraction
    → IsInt64 i.infraction_height
    → IsInt64 i.power
    → (key : Bytes) × (build_piped_valset_op_key sdk validator_slashed val (some i)
        ≡ ok (0x5 ∷ key))
      × (decode_piped_key key
          ≡ ok (record {
            val_address = val;
            op = validator_slashed;
            slash_info =
                some (record i { infraction_height = i.power; power = i.infraction_height });
          }))
decode_piped_key-build_slash_op_key sdk val i laws nonempty fits texts h p = (
  length val ∷ val ++ (validator_slashed ∷ slash_bytes i),
  build_slash_op_key_lem sdk val i laws nonempty (omega arith),
  decode_slash val i fits texts h p,
)
