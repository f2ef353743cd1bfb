-- ===== src/Accel/Config.antt =====
-- sw/Hardposit/include/config.h: sizes of the request ring, and the address macros.
use hardposit_fpga.Base.{
  ℕ, zero, suc, ◌+◌, ◌-◌, ◌*◌, ◌/◌, ◌%◌, ◌^◌, ◌≡◌, refl, true, leb, if◌then◌else◌, arith,
}

-- `struct Operand`: `val` is a uint32_t, `valid_w_id` a uint8_t.
pub record Operand : Type 0 where
  pub val : ℕ
  pub valid_w_id : ℕ

-- sizeof(Operand): the byte is padded to the alignment of the word before it.
abbrev pub sizeof_operand : ℕ
sizeof_operand = 8

-- ceil(log2(n)): the least k from `k` on with n <= 2^k, by trying at most `fuel` values.
abbrev pub ceil_log2_from : ℕ → ℕ → ℕ → ℕ
ceil_log2_from zero k n = k
ceil_log2_from (suc fuel) k n = elim (leb n (2 ^ k)) [
  | true ↦ k
  | _ ↦ ceil_log2_from fuel (k + 1) n
]

-- exp2(ceil(log2(n))), for n at most 2^16.
abbrev pub exp2_ceil_log2 : ℕ → ℕ
exp2_ceil_log2 n = 2 ^ ceil_log2_from 16 0 n

abbrev pub size_of_cacheline : ℕ
size_of_cacheline = 64

abbrev pub num_operand : ℕ
num_operand = 3

abbrev pub num_fpga_entries : ℕ
num_fpga_entries = 8

abbrev pub simulated_entries : ℕ
simulated_entries = 8

abbrev pub num_operand_entries : ℕ
num_operand_entries = exp2_ceil_log2 (num_operand * num_fpga_entries)

abbrev pub write_granularity : ℕ
write_granularity = 64

abbrev pub read_granularity : ℕ
read_granularity = exp2_ceil_log2 sizeof_operand

abbrev pub num_operand_per_cacheline : ℕ
num_operand_per_cacheline = size_of_cacheline / read_granularity

abbrev pub bits_for_offset : ℕ
bits_for_offset = ceil_log2_from 16 0 num_operand_per_cacheline

abbrev pub num_cacheline : ℕ
num_cacheline =
    if leb (num_operand_entries / num_operand_per_cacheline) (14 - bits_for_offset)
    then num_operand_entries / num_operand_per_cacheline
    else 14 - bits_for_offset

abbrev pub total_entries : ℕ
total_entries = num_cacheline * num_operand_per_cacheline

-- The macros, at a uint8_t argument.
abbrev pub calc_offset : ℕ → ℕ
calc_offset x = x % num_operand_per_cacheline

abbrev pub calc_offset_in_byte : ℕ → ℕ
calc_offset_in_byte x = calc_offset x * read_granularity

abbrev pub calc_cacheline_one_hot : ℕ → ℕ
calc_cacheline_one_hot x = 2 ^ (bits_for_offset + (x % total_entries) / num_operand_per_cacheline)

abbrev pub calc_cacheline_offset : ℕ → ℕ
calc_cacheline_offset x = (x % total_entries) / num_operand_per_cacheline

abbrev pub calc_cacheline_offset_in_byte : ℕ → ℕ
calc_cacheline_offset_in_byte x = calc_cacheline_offset x * 2 ^ 6

abbrev pub calc_id : ℕ → ℕ
calc_id x = x / total_entries % 2

-- Where the operand at ring position `x` is written, in bytes from the start of the buffer.
abbrev pub byte_of : ℕ → ℕ
byte_of x = calc_offset_in_byte x + calc_cacheline_offset_in_byte x

-- The same place, counted in entries.
pub byte_of-eq : (x : ℕ) → byte_of x ≡ x % 32 * 8
byte_of-eq x = omega arith

-- uint8_t increment of the ring pointer.
abbrev pub bump : ℕ → ℕ
bump p = (p + 1) % 2 ^ 8

test_sizes : (num_operand_entries ≡ 32) × (num_cacheline ≡ 4) × (bits_for_offset ≡ 3)
test_sizes = (refl, refl, refl)
