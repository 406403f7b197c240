-- ===== src/Core/Float.antt =====
-- `f64`: the operations that the program uses. IEEE 754 is outside; the laws are what it promises.
use dl_dsr_rs.Base.{ℕ, ◌≤◌, ◌^◌, ◌<◌, ◌≡◌, Bool, true, false, List, Option, none, some}
use Prim.Native.Nat.{Ordering}

pub record F64 (W : Type 0) : Type 0 where
  -- `n as f64`
  pub of_u64 : ℕ → W
  -- The literal with these digits, of which the last `places` are decimals: `0.05` is `literal 5 2`.
  pub literal : (digits places : ℕ) → W
  pub add : W → W → W
  pub sub : W → W → W
  pub mul : W → W → W
  pub div : W → W → W
  -- `iter().sum::<f64>()`
  pub sum : List W → W
  pub partial_cmp : W → W → Option Ordering
  pub round : W → W
  -- `x as usize`
  pub to_usize : W → ℕ

-- `x <= y`
abbrev pub is_le : Option Ordering → Bool
is_le (some Ordering.lt) = true
is_le (some Ordering.eq) = true
is_le (some Ordering.gt) = false
is_le none = false

infix 4 ◌≼◌
abbrev pub ◌≼◌ : {W : Type 0} ⦃f : F64 W⦄ → W → W → Type 0
◌≼◌ ⦃f⦄ x y = is_le (f.partial_cmp x y) ≡ true

-- From 0 to 1.
abbrev pub IsShare : {W : Type 0} ⦃f : F64 W⦄ → W → Type 0
IsShare ⦃f⦄ x = (f.literal 0 1 ≼ x) × (x ≼ f.literal 10 1)

-- A percentage in tenths, divided by 100, gives a share; a share of a whole number is no
-- more than it; rounding does not pass a whole number; and below 2^53 whole numbers are exact.
pub record IsIeee (W : Type 0) ⦃f : F64 W⦄ : Type 0 where
  pub share : (p : ℕ) → p ≤ 1000 → IsShare (f.div (f.literal p 1) (f.literal 1000 1))
  pub share_of : (x : W) (n : ℕ) → IsShare x → f.mul x (f.of_u64 n) ≼ f.of_u64 n
  pub round_le : (x : W) (n : ℕ) → x ≼ f.of_u64 n → f.round x ≼ f.of_u64 n
  pub to_usize_le : (x : W) (n : ℕ) → n < 2 ^ 53 → x ≼ f.of_u64 n → f.to_usize x ≤ n
