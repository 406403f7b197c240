-- ===== src/Tests/Figures.antt =====
-- The theorems on figures and their file, with an `f64` that knows whole numbers only.
use dl_dsr_rs.Base.{
  ℕ, zero, suc, ◌+◌, ◌*◌, ◌-◌, ◌≤◌, ◌^◌, ◌≡◌, refl, [], ◌∷◌, some, ok, foldl, ltb, nat_beq,
  if◌then◌else◌, true, arith,
}
use Prim.Native.Nat.{◌/◌, Ordering}
use dl_dsr_rs.Core.Socket.{Text, bytes}
use dl_dsr_rs.Core.Packet.{dl_dsr}
use dl_dsr_rs.Core.Float.{F64, IsIeee, is_le}
use dl_dsr_rs.Core.Simulation.{percentile}
use dl_dsr_rs.Core.Simulation.Percentile.{Occurs, percentile-Occurs}
use dl_dsr_rs.Bench.{ComparisonReport, comparison}
use dl_dsr_rs.Bench.Savings.{comparison-savings}
use dl_dsr_rs.Node.State.{ProtocolState, new}
use dl_dsr_rs.Node.Snapshot.{Disk, Ending, done, torn, Files, write_metrics_file}
use dl_dsr_rs.Node.Snapshot.Atomic.{IsAtomic, write_metrics_file-IsAtomic}
use dl_dsr_rs.Tests.Inputs.{chain_config}
use dl_dsr_rs.Tests.Program.{program}

abbrev order : ℕ → ℕ → Ordering
order a b = if ltb a b then Ordering.lt else if nat_beq a b then Ordering.eq else Ordering.gt

order_le : (a b : ℕ) → a ≤ b → is_le (some (order a b)) ≡ true
order_le a b h = ground arith

le_order : (a b : ℕ) → is_le (some (order a b)) ≡ true → a ≤ b
le_order a b h = ground arith

mul_le : (x n : ℕ) → x ≤ 1 → x * n ≤ n
mul_le zero n h = omega arith
mul_le (suc zero) n h = omega arith
mul_le (suc (suc x)) n h = absurd (omega arith)

instance abbrev whole : F64 ℕ
whole = record {
  of_u64 = λ n. n;
  literal = λ digits places. digits / 10 ^ places;
  add = λ a b. a + b;
  sub = λ a b. a - b;
  mul = λ a b. a * b;
  div = λ a b. a / b;
  sum = foldl (λ a b. a + b) 0;
  partial_cmp = λ a b. some (order a b);
  round = λ a. a;
  to_usize = λ a. a;
}

whole-IsIeee : IsIeee ℕ
whole-IsIeee = record {
  share =
      λ p below. (order_le 0 (p / 10 / 100) (omega arith), order_le (p / 10 / 100) 1 (omega arith));
  share_of = λ x n share. order_le (x * n) n (mul_le x n (le_order x 1 share.1));
  round_le = λ x n below. below;
  to_usize_le = λ x n small below. le_order x n below;
}

percentile-Occurs_example :
    (w : ℕ) × (percentile ⦃f = whole⦄ (7 ∷ 3 ∷ 5 ∷ []) (whole.literal 950 1) ≡ ok w)
    × Occurs ⦃f = whole⦄ w (7 ∷ 3 ∷ 5 ∷ [])
percentile-Occurs_example =
    percentile-Occurs (7 ∷ 3 ∷ 5 ∷ []) 950 whole-IsIeee (omega arith) (omega arith) (omega arith)

comparison-savings_example :
    (r : ComparisonReport ℕ) × (comparison ⦃f = whole⦄ 4 64 100 ≡ ok r)
    × (r.path_header_savings_bytes ≡ 1200)
    × (r.total_tx_savings_bytes ≡ 3600)
comparison-savings_example =
    comparison-savings whole-IsIeee 4 64 100 (omega arith) (omega arith) (omega arith)

abbrev metrics_path : Text
metrics_path = bytes "node0.json"

abbrev tmp_path : Text
tmp_path = bytes "node0.tmp"

abbrev files : Files ℕ
files = record {
  parent = λ path. some (bytes "");
  with_extension_tmp = λ path. tmp_path;
  to_vec_pretty = λ snapshot. ok (snapshot.node_id ∷ snapshot.tx_bytes ∷ []);
}

-- The directory is there, and the disk is full.
abbrev full_disk : ℕ → Ending
full_disk zero = done
full_disk (suc n) = torn (9 ∷ []) (bytes "No space left on device")

abbrev reporter : ProtocolState
reporter = new (record (chain_config 0 dl_dsr) { metrics_output_path = some metrics_path })

abbrev disk : Disk
disk path = some (8 ∷ [])

write_metrics_file-IsAtomic_example :
    IsAtomic metrics_path
      (0 ∷ 0 ∷ [])
      disk
      (write_metrics_file files ⦃f = whole⦄ full_disk reporter disk)
    × ((write_metrics_file files ⦃f = whole⦄ full_disk reporter disk).0 (bytes "other")
        ≡ some (8 ∷ []))
unfolding program
write_metrics_file-IsAtomic_example =
    write_metrics_file-IsAtomic files ⦃f = whole⦄ full_disk reporter metrics_path (0 ∷ 0 ∷ []) disk
      (bytes "other") refl refl refl refl refl
