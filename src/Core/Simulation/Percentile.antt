-- ===== src/Core/Simulation/Percentile.antt =====
-- The percentiles of the benchmark are read in range.
use dl_dsr_rs.Base.{
  ℕ, zero, suc, ◌-◌, ◌≤◌, ◌<◌, ◌^◌, ◌≡◌, refl, Bool-cases, inl, inr, List, [], ◌∷◌, some, ok,
  get_elem?, length, map, if◌then◌else◌, arith, subst, ap, ◌∙◌, ok_or,
}
use dl_dsr_rs.Core.Float.{F64, IsIeee}
use dl_dsr_rs.Core.Topology.{count_up}
use dl_dsr_rs.Core.Simulation.{
  stays_in_front, insert_value, sort_values, percentile, index_out_of_range,
}

pub length-map : {A : Type 0} {B : Type 0} (g : A → B) (xs : List A) → length (map g xs) ≡ length xs
length-map g [] = refl
length-map g (x ∷ xs) = ap suc (length-map g xs)

pub length-count_up : (i n : ℕ) → length (count_up i n) ≡ n
length-count_up i zero = refl
length-count_up i (suc n) = ap suc (length-count_up (suc i) n)

get_elem?-in_range :
    {A : Type 0} (xs : List A) (i : ℕ) → i < length xs → (x : A) × (get_elem? xs i ≡ some x)
get_elem?-in_range [] i h = absurd (omega arith)
get_elem?-in_range (x ∷ xs) zero h = (x, refl)
get_elem?-in_range (x ∷ xs) (suc i) h = get_elem?-in_range xs i (omega arith)

module _ {W : Type 0} ⦃f : F64 W⦄ where
  length-insert_value : (x : W) (ys : List W) → length (insert_value x ys) ≡ suc (length ys)
  length-insert_value x [] = refl
  length-insert_value x (y ∷ ys) = elim (Bool-cases (stays_in_front (f.partial_cmp x y))) [
    | inl front ↦ rw front refl
    | inr behind ↦ rw behind (ap suc (length-insert_value x ys))
  ]

  length-sort_values : (xs : List W) → length (sort_values xs) ≡ length xs
  length-sort_values [] = refl
  length-sort_values (x ∷ xs) =
      length-insert_value x (sort_values xs) ∙ ap suc (length-sort_values xs)

  -- One of the values.
  abbrev pub Occurs : W → List W → Type 0
  Occurs w xs = (i : ℕ) × (get_elem? xs i ≡ some w)

  -- What occurs in a list occurs in it with one more in front, or in second place.
  second-Occurs : (w x y : W) (ys : List W) → Occurs w (x ∷ ys) → Occurs w (x ∷ y ∷ ys)
  second-Occurs w x y ys (zero, e) = (0, e)
  second-Occurs w x y ys (suc j, e) = (suc (suc j), e)

  below-Occurs :
      (w x : W) (zs xs : List W)
      → (Occurs w zs → Occurs w xs)
      → Occurs w (x ∷ zs)
      → Occurs w (x ∷ xs)
  below-Occurs w x zs xs move (zero, e) = (0, e)
  below-Occurs w x zs xs move (suc j, e) = let (k, found) = move (j, e) in (suc k, found)

  swap-Occurs :
      (w x y : W) (zs ys : List W)
      → (Occurs w zs → Occurs w (x ∷ ys))
      → Occurs w (y ∷ zs)
      → Occurs w (x ∷ y ∷ ys)
  swap-Occurs w x y zs ys move (zero, e) = (1, e)
  swap-Occurs w x y zs ys move (suc j, e) = second-Occurs w x y ys (move (j, e))

  Occurs-insert_value : (w x : W) (ys : List W) → Occurs w (insert_value x ys) → Occurs w (x ∷ ys)
  Occurs-insert_value w x [] h = h
  Occurs-insert_value w x (y ∷ ys) h = elim (Bool-cases (stays_in_front (f.partial_cmp x y))) [
    | inl front ↦ subst (λ b. Occurs w (if b then x ∷ y ∷ ys else y ∷ insert_value x ys)) front h
    | inr behind ↦
        swap-Occurs w x y (insert_value x ys) ys (Occurs-insert_value w x ys)
          (subst (λ b. Occurs w (if b then x ∷ y ∷ ys else y ∷ insert_value x ys)) behind h)
  ]

  Occurs-sort_values : (w : W) (xs : List W) → Occurs w (sort_values xs) → Occurs w xs
  Occurs-sort_values w [] h = h
  Occurs-sort_values w (x ∷ xs) h =
      below-Occurs w x (sort_values xs) xs (Occurs-sort_values w xs)
        (Occurs-insert_value w x (sort_values xs) h)

  -- Let `f64` keep the laws of `IsIeee`, and let there be from 1 to 2^53 values. Then a
  -- percentile of at most 100, given in tenths, does not panic, and is one of the values.
  pub percentile-Occurs :
      (xs : List W) (p : ℕ)
      → IsIeee W
      → 0 < length xs
      → length xs ≤ 2 ^ 53
      → p ≤ 1000
      → (w : W) × (percentile xs (f.literal p 1) ≡ ok w) × Occurs w xs
  unfolding percentile
  percentile-Occurs [] p laws some_value few below = absurd (omega arith)
  percentile-Occurs (x ∷ xs) p laws some_value few below =
      let values = sort_values (x ∷ xs) in
      let size = length-sort_values (x ∷ xs) in
      let n = length values - 1 in
      let share = f.div (f.literal p 1) (f.literal 1000 1) in
      let idx = f.to_usize (f.round (f.mul share (f.of_u64 n))) in
      let within : idx ≤ n =
        laws.to_usize_le (f.round (f.mul share (f.of_u64 n))) n (omega arith) (
          laws.round_le (f.mul share (f.of_u64 n)) n
            (laws.share_of share n (laws.share p below))) in
      let (w, read) = get_elem?-in_range values idx (omega arith) in
      (
        w,
        ap (λ o. ok_or o (index_out_of_range (length values) idx)) read,
        Occurs-sort_values w (x ∷ xs) (idx, read),
      )

  pub percentile-ok :
      (xs : List W) (p : ℕ)
      → IsIeee W
      → length xs ≤ 2 ^ 53
      → p ≤ 1000
      → (w : W) × (percentile xs (f.literal p 1) ≡ ok w)
  unfolding percentile
  percentile-ok [] p laws few below = (f.literal 0 1, refl)
  percentile-ok (x ∷ xs) p laws few below =
      let (w, read, _) = percentile-Occurs (x ∷ xs) p laws (omega arith) few below in (w, read)
