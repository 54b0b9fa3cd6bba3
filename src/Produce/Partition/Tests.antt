-- ===== src/Produce/Partition/Tests.antt =====
-- The partitioner on small inputs; the hashes are those of the Java client.
use kaas_lib.Prelude.{ℕ, ◌≡◌, refl, none, some, List, [], ◌∷◌, arith}
use kaas_lib.Prelude.Int.{ℤ, pos, negsuc, ◌≤ℤ◌, ◌<ℤ◌}
use kaas_lib.Prelude.Map.{lookup}
use kaas_lib.Prelude.Text.{String-discrete}
use kaas_lib.Produce.Partition.{murmur2, Partitioner, assign}
use kaas_lib.Produce.Partition.Laws.{
  InTopic, IsNonneg, Call, assign_call, rotate_call, run, assign-run,
}

abbrev foobar : List ℕ
foobar = b'f' ∷ b'o' ∷ b'o' ∷ b'b' ∷ b'a' ∷ b'r' ∷ []

murmur2_21 : murmur2 (b'2' ∷ b'1' ∷ []) ≡ negsuc 973932307
unfolding murmur2
murmur2_21 = refl

murmur2-foobar : murmur2 foobar ≡ negsuc 790332481
unfolding murmur2
murmur2-foobar = refl

murmur2_abc : murmur2 (b'a' ∷ b'b' ∷ b'c' ∷ []) ≡ pos 479470107
unfolding murmur2
murmur2_abc = refl

-- A draw that always picks the first partition.
abbrev draw_first : ℤ → ℤ
draw_first n = pos 0

draw_first-InTopic : (n : ℤ) → pos 0 <ℤ n → InTopic (draw_first n) n
draw_first-InTopic n h = (omega arith, h)

abbrev calls : List Call
calls =
    assign_call "orders" none (pos 6)
    ∷ assign_call "orders" (some foobar) (pos 6)
    ∷ rotate_call "orders"
    ∷ []

abbrev stuck : Partitioner
stuck = record { sticky = ("orders", pos 7) ∷ [] }

stuck-IsNonneg : IsNonneg stuck
unfolding lookup
stuck-IsNonneg t v e = elim (String-discrete "orders" t) [
  | yes p ↦ ground arith
  | no n ↦ ground arith
]

assign-run_example :
    let out =
      (assign draw_first (run draw_first (record { sticky = [] }) calls) "orders" none (pos 6)).1 in
    (pos 6 ≤ℤ pos 0 → out ≡ none) × (pos 0 <ℤ pos 6 → (q : ℤ) × (out ≡ some q) × InTopic q (pos 6))
assign-run_example =
    assign-run draw_first draw_first-InTopic calls "orders" none (pos 6) (omega arith, omega arith)
