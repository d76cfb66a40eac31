-- ===== src/Keys.antt =====
-- x/meshsecurity/types/keys.go: the layout of the store keys.
pub mod Scheduler
pub mod Layout
use research_cosmos.Prelude.{
  ℕ, zero, suc, ◌+◌, ◌%◌, ◌≡◌, Option, none, some, List, [], ◌∷◌, ◌++◌, ◌==◌, length, if◌then◌else◌,
}
use research_cosmos.Bytes.{Bytes, big_endian}
use research_cosmos.Types.{
  Outcome, ok, err, panic, invalid, SchedulerTaskType, task_undefined, PipedValsetOperation,
  valset_operation_undefined, validator_slashed, SlashInfo, to_uint64,
}
use research_cosmos.Sdk.{Sdk}

abbrev pub params_key : Bytes
params_key = 0x1 ∷ []

abbrev pub max_cap_limit_key_prefix : Bytes
max_cap_limit_key_prefix = 0x2 ∷ []

abbrev pub total_delegated_amount_key_prefix : Bytes
total_delegated_amount_key_prefix = 0x3 ∷ []

abbrev pub scheduler_key_prefix : Bytes
scheduler_key_prefix = 0x4 ∷ []

abbrev pub piped_valset_prefix : Bytes
piped_valset_prefix = 0x5 ∷ []

unfoldable pub build_max_cap_limit_key : Bytes → Bytes
build_max_cap_limit_key contract_addr = max_cap_limit_key_prefix ++ contract_addr

unfoldable pub build_total_delegated_amount_key : Bytes → Bytes
build_total_delegated_amount_key contract_addr = total_delegated_amount_key_prefix ++ contract_addr

unfoldable pub build_scheduler_type_key_prefix : SchedulerTaskType → Outcome Bytes
build_scheduler_type_key_prefix tp =
    if tp == task_undefined then err invalid else ok (scheduler_key_prefix ++ tp ∷ [])

-- `append(prefix, tail...)`, unless the prefix was refused
abbrev pub append_to : Outcome Bytes → Bytes → Outcome Bytes
append_to (ok p) tail = ok (p ++ tail)
append_to (err e) tail = err e
append_to panic tail = panic

unfoldable pub build_scheduler_height_key_prefix : SchedulerTaskType → ℕ → Outcome Bytes
unfolding build_scheduler_type_key_prefix
build_scheduler_height_key_prefix tp block_height =
    append_to (build_scheduler_type_key_prefix tp) (big_endian 8 block_height)

unfoldable pub build_scheduler_contract_key : SchedulerTaskType → ℕ → Bytes → Outcome Bytes
unfolding build_scheduler_height_key_prefix
build_scheduler_contract_key tp block_height contract_addr =
    append_to (build_scheduler_height_key_prefix tp block_height) contract_addr

-- `make([]byte, n)`
abbrev pub make_bytes : ℕ → Bytes
make_bytes zero = []
make_bytes (suc n) = 0 ∷ make_bytes n

-- `copy(r, src)`: as much of `src` as fits
unfoldable pub copy : Bytes → Bytes → Bytes
copy [] src = []
copy (x ∷ r) [] = x ∷ r
copy (x ∷ r) (b ∷ src) = b ∷ copy r src

-- `copy(r[n:], src)`, where `n` lies in the buffer
unfoldable pub copy_at : ℕ → Bytes → Bytes → Bytes
unfolding copy
copy_at zero r src = copy r src
copy_at (suc n) [] src = []
copy_at (suc n) (x ∷ r) src = x ∷ copy_at n r src

-- The bytes that the slash data takes: two words, a length byte and two texts.
abbrev pub slash_size : SlashInfo → ℕ
slash_size i = 8 + 8 + 1 + length i.total_slash_amount + length i.slash_fraction

-- The writes of the slash data from offset `n` on.
unfoldable pub copy_slash_info : ℕ → SlashInfo → Bytes → Bytes
unfolding copy_at
copy_slash_info n i r =
    let tn = length i.total_slash_amount in
    let r₁ = copy_at n r (big_endian 8 (to_uint64 i.infraction_height)) in
    let r₂ = copy_at (n + 8) r₁ (big_endian 8 (to_uint64 i.power)) in
    let r₃ = copy_at (n + 8 + 8) r₂ ((tn % 256) ∷ []) in
    let r₄ = copy_at (n + 8 + 8 + 1) r₃ i.total_slash_amount in
    copy_at (n + 8 + 8 + 1 + tn) r₄ i.slash_fraction

-- The buffer with the prefix, the length-prefixed address and the operation.
unfoldable pub copy_head : ℕ → Bytes → Bytes → PipedValsetOperation → Bytes
unfolding copy_at
copy_head size val prefixed op =
    let r₁ = copy_at 0 (make_bytes size) piped_valset_prefix in
    let r₂ = copy_at 1 r₁ prefixed in copy_at (1 + length val + 1) r₂ (op ∷ [])

abbrev pub with_prefixed : Outcome Bytes → (Bytes → Bytes) → Outcome Bytes
with_prefixed (ok p) f = ok (f p)
with_prefixed (err e) f = err e
with_prefixed panic f = panic

-- The slash branch; a missing slash info panics.
unfoldable pub build_slash_op_key : Sdk → Bytes → Option SlashInfo → Outcome Bytes
unfolding copy_head copy_slash_info
build_slash_op_key sdk val none = panic
build_slash_op_key sdk val (some i) = with_prefixed (sdk.must_length_prefix val) λ p.
    copy_slash_info (1 + length val + 1 + 1) i
      (copy_head (1 + length val + slash_size i + 1 + 1) val p validator_slashed)

unfoldable pub build_piped_valset_op_key :
    Sdk → PipedValsetOperation → Bytes → Option SlashInfo → Outcome Bytes
unfolding build_slash_op_key copy_head
build_piped_valset_op_key sdk op val slash_info =
    if op == valset_operation_undefined
    then panic
    else if op == validator_slashed
    then build_slash_op_key sdk val slash_info
    else with_prefixed (sdk.must_length_prefix val)
        λ p. copy_head (1 + length val + 0 + 1 + 1) val p op
