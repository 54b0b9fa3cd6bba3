-- ===== src/Produce/Partition.antt =====
-- kafka-produce/src/partition.rs: murmur2 by key, sticky without one.
-- A byte is a number below 256. The draw of a random partition (`rand`) is a parameter.
pub mod Laws
mod Tests
use Prim.Native.Nat.{bit_and, bit_xor}
use kaas_lib.Prelude.{
  ℕ, suc, ◌+◌, ◌-◌, ◌*◌, ◌/◌, ◌%◌, ◌^◌, Bool, true, false, if◌then◌else◌, ltb, leb, min, max,
  Option, none, some, List, [], ◌∷◌, length, String,
}
use kaas_lib.Prelude.Int.{ℤ, pos, negsuc, leb_ℤ, ltb_ℤ, ◌-ℤ◌}
use kaas_lib.Prelude.Words.{u32_mod, u32_max, bits32, signed32}
use kaas_lib.Prelude.Map.{lookup, insert, remove}
use kaas_lib.Prelude.Text.{String-discrete}

abbrev m : ℕ
m = 0x5bd1e995

abbrev seed : ℕ
seed = 0x9747b28c

-- `wrapping_mul`, and `x ^ (x >> k)`.
abbrev wrapping_mul : ℕ → ℕ → ℕ
wrapping_mul a b = a * b % u32_mod

abbrev xor_shift : ℕ → ℕ → ℕ
xor_shift x k = bit_xor x (x / 2 ^ k)

-- `u32::from_le_bytes`
abbrev from_le_bytes : ℕ → ℕ → ℕ → ℕ → ℕ
from_le_bytes a b c d = a + b * 2 ^ 8 + c * 2 ^ 16 + d * 2 ^ 24

-- The body of the loop over the chunks.
mix : ℕ → ℕ → ℕ
mix h chunk =
    let k = wrapping_mul (xor_shift (wrapping_mul chunk m) 24) m in bit_xor (wrapping_mul h m) k

-- The tail of one to three bytes: each falls through to the next.
mix_tail : ℕ → List ℕ → ℕ
mix_tail h [] = h
mix_tail h (a ∷ []) = wrapping_mul (bit_xor h a) m
mix_tail h (a ∷ b ∷ []) = wrapping_mul (bit_xor (bit_xor h (b * 2 ^ 8)) a) m
mix_tail h (a ∷ b ∷ c ∷ _) =
    wrapping_mul (bit_xor (bit_xor (bit_xor h (c * 2 ^ 16)) (b * 2 ^ 8)) a) m

-- The loop over the chunks of four bytes, and what remains.
hash_chunks : ℕ → List ℕ → ℕ
unfolding mix mix_tail
hash_chunks h (a ∷ b ∷ c ∷ d ∷ rest) = hash_chunks (mix h (from_le_bytes a b c d)) rest
hash_chunks h tail = mix_tail h tail

finish : ℕ → ℕ
finish h = xor_shift (wrapping_mul (xor_shift h 13) m) 15

-- Java's `Utils.murmur2`: an i32.
unfoldable pub murmur2 : List ℕ → ℤ
unfolding hash_chunks finish
murmur2 bytes = signed32 (finish (hash_chunks (bit_xor seed (min u32_max (length bytes))) bytes))

-- `u32::try_from(partition_count).unwrap_or(1).max(1)`
abbrev pub count_u32 : ℤ → ℕ
count_u32 (pos n) = if leb n u32_max then max n 1 else 1
count_u32 (negsuc n) = 1

-- `i32::try_from(n).unwrap_or(0)`
abbrev pub i32_or_zero : ℕ → ℤ
i32_or_zero n = if ltb n (2 ^ 31) then pos n else pos 0

-- The partition of a keyed record, as Java's default partitioner computes it.
unfoldable pub partition_for_key : List ℕ → ℤ → ℤ
partition_for_key key partition_count =
    let positive = bit_and (bits32 (murmur2 key)) 0x7fffffff in
    i32_or_zero (positive % count_u32 partition_count)

-- The partition that each topic's unkeyed records stick to.
pub record Partitioner : Type 0 where
  pub sticky : List (String × ℤ)

-- `partition_count.saturating_sub(1).max(0)`, of a count above zero.
abbrev last_partition : ℤ → ℤ
last_partition (pos n) = pos (n - 1)
last_partition (negsuc n) = pos 0

-- The clamp of a remembered choice.
abbrev clamp_choice : ℤ → ℤ → ℤ
clamp_choice chosen partition_count =
    if leb_ℤ partition_count chosen then last_partition partition_count else chosen

abbrev chosen_or : Option ℤ → ℤ → ℤ
chosen_or (some p) drawn = p
chosen_or none drawn = drawn

module _ (draw : ℤ → ℤ) where
  -- `draw n` is `random_range(0..n)`, made only where the topic has no choice yet.
  unfoldable pub sticky_for : Partitioner → String → ℤ → Partitioner × ℤ
  sticky_for p topic partition_count =
      let chosen =
        clamp_choice (chosen_or (lookup String-discrete topic p.sticky) (draw partition_count))
          partition_count in
      (record { sticky = insert String-discrete topic chosen p.sticky }, chosen)

  -- The partition of a record, or none if the topic has no partition.
  unfoldable pub assign : Partitioner → String → Option (List ℕ) → ℤ → Partitioner × Option ℤ
  unfolding sticky_for
  assign p topic key partition_count =
      if leb_ℤ partition_count (pos 0) then (p, none) else elim key [
        | some bytes ↦ (p, some (partition_for_key bytes partition_count))
        | none ↦ let (p', chosen) = sticky_for p topic partition_count in (p', some chosen)
      ]

-- Release the topic's partition.
unfoldable pub rotate : Partitioner → String → Partitioner
rotate p topic = record { sticky = remove String-discrete topic p.sticky }
