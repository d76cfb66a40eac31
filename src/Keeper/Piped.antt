-- ===== src/Keeper/Piped.antt =====
-- The decoding of a piped valset key in `iteratePipedValsetOperations` of
-- x/meshsecurity/keeper/valset_updates.go.
pub mod RoundTrip
use research_cosmos.Prelude.{
  ℕ, ◌+◌, ◌-◌, ◌%◌, ◌&&◌, Option, none, some, [], ◌∷◌, ◌==◌, leb, length, take, drop, if◌then◌else◌,
}
use research_cosmos.Bytes.{Bytes, from_big_endian}
use research_cosmos.Types.{
  Outcome, ok, err, invalid, PipedValsetOperation, validator_slashed, SlashInfo, to_int64,
}
use research_cosmos.Fallible.{◌>>=◌, in_range}

-- `key[i]` and `key[lo:hi]`, which panic out of range; a key has no spare capacity.
unfoldable pub byte_at : ℕ → Bytes → Outcome ℕ
byte_at i key = elim (drop i key) [ [] ↦ in_range none | b ∷ rest ↦ ok b ]

unfoldable pub slice : ℕ → ℕ → Bytes → Outcome Bytes
slice lo hi key =
    in_range
      (if leb lo hi && leb hi (length key) then some (take (hi - lo) (drop lo key)) else none)

-- Addition of `byte` values.
abbrev pub byte_add : ℕ → ℕ → ℕ
byte_add a b = (a + b) % 256

-- The slash data of a key whose address has the length `addr_len`. All indices but those of the
-- length test are sums of bytes, and wrap.
unfoldable pub decode_slash_info : ℕ → Bytes → Outcome SlashInfo
unfolding byte_at slice
decode_slash_info addr_len key =
    if leb (length key) (1 + addr_len + 1 + 8 + 8 + 1) then err invalid else do
      amount_len ← byte_at (byte_add addr_len 18) key
      power ← slice (byte_add addr_len 2) (byte_add addr_len 10) key
      height ← slice (byte_add addr_len 10) (byte_add addr_len 18) key
      let fraction_start = byte_add (byte_add addr_len 19) amount_len
      amount ← slice (byte_add addr_len 19) fraction_start key
      fraction ← slice fraction_start (length key) key
      ok (record {
        infraction_height = to_int64 (from_big_endian 0 height);
        power = to_int64 (from_big_endian 0 power);
        total_slash_amount = amount;
        slash_fraction = fraction;
      })

-- One decoded entry of the memory store.
pub record PipedOp : Type 0 where
  pub val_address : Bytes
  pub op : PipedValsetOperation
  pub slash_info : Option SlashInfo

-- What the loop reads from a key behind the prefix.
unfoldable pub decode_piped_key : Bytes → Outcome PipedOp
decode_piped_key key = do
  addr_len ← byte_at 0 key
  addr ← slice 1 (byte_add addr_len 1) key
  op ← byte_at (byte_add addr_len 1) key
  slash_info ←
      if op == validator_slashed
      then (do i ← decode_slash_info addr_len key; ok (some i))
      else ok none
  ok (record { val_address = addr; op = op; slash_info = slash_info })
