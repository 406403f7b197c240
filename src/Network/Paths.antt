-- ===== src/Network/Paths.antt =====
-- Paths of node ids, read by index and by suffix.
use dl_dsr_rs.Base.{
  refl, ℕ, zero, suc, ◌<◌, ◌≡◌, true, false, List, [], ◌∷◌, ◌++◌, nat_beq, nat_eq, some, drop,
  get_elem?, last?, contains, position, length, arith,
}

-- No node stands on the path twice.
abbrev pub IsSimple : List ℕ → Type 0
IsSimple [] = Unit {0}
IsSimple (x ∷ xs) = (contains xs x ≡ false) × IsSimple xs

-- The path meets the node nowhere before its last node.
abbrev pub MeetsLast : ℕ → List ℕ → Type 0
MeetsLast d [] = Unit {0}
MeetsLast d (x ∷ []) = Unit {0}
MeetsLast d (x ∷ y ∷ xs) = (nat_beq d x ≡ false) × MeetsLast d (y ∷ xs)

pub MeetsLast-snoc :
    (d : ℕ) (path : List ℕ) → contains path d ≡ false → MeetsLast d (path ++ (d ∷ []))
MeetsLast-snoc d [] h = tt
MeetsLast-snoc d (x ∷ []) h = (ground arith, tt)
MeetsLast-snoc d (x ∷ y ∷ path) h = (ground arith, MeetsLast-snoc d (y ∷ path) (ground arith))

-- What a suffix of two or more says of the path.
pub drop_facts :
    (c : ℕ) (a b : ℕ) (r xs : List ℕ)
    → drop c xs ≡ a ∷ b ∷ r
    → (get_elem? xs c ≡ some a)
      × (get_elem? xs (suc c) ≡ some b)
      × (drop (suc c) xs ≡ b ∷ r)
      × (last? xs ≡ last? (b ∷ r))
      × (suc c < length xs)
drop_facts c a b r [] h = absurd (none_left c h)
  where
    none_left : (c : ℕ) → drop c [] ≡ a ∷ b ∷ r → ⊥
    none_left zero h = cc
    none_left (suc c) h = cc
drop_facts zero a b r (x ∷ []) h = cc
drop_facts zero a b r (x ∷ y ∷ xs) h = ground arith
drop_facts (suc c) a b r (x ∷ []) h = absurd (none_left c h)
  where
    none_left : (c : ℕ) → drop c [] ≡ a ∷ b ∷ r → ⊥
    none_left zero h = cc
    none_left (suc c) h = cc
drop_facts (suc c) a b r (x ∷ y ∷ xs) h = ground (arith, drop_facts c a b r (y ∷ xs))

pub contains-get_elem? : (xs : List ℕ) (i a : ℕ) → get_elem? xs i ≡ some a → contains xs a ≡ true
contains-get_elem? [] i a h = cc
contains-get_elem? (x ∷ xs) zero a h = ground arith
contains-get_elem? (x ∷ xs) (suc i) a h = ground (arith, contains-get_elem? xs i a)

pub contains-last? : (xs : List ℕ) (a : ℕ) → last? xs ≡ some a → contains xs a ≡ true
contains-last? [] a h = cc
contains-last? (x ∷ []) a h = ground arith
contains-last? (x ∷ y ∷ xs) a h = ground (arith, contains-last? (y ∷ xs) a)

-- On a simple path a node's position is where it is read.
pub position-get_elem? :
    (xs : List ℕ) (i a : ℕ) → IsSimple xs → get_elem? xs i ≡ some a → position a xs ≡ some i
position-get_elem? [] i a s h = cc
position-get_elem? (x ∷ xs) zero a s h = ground arith
position-get_elem? (x ∷ xs) (suc i) a s h =
    ground (arith, position-get_elem? xs i a s.1, contains-get_elem? xs i a)

pub drop-IsSimple : (c : ℕ) (xs : List ℕ) → IsSimple xs → IsSimple (drop c xs)
drop-IsSimple zero xs h = h
drop-IsSimple (suc c) [] h = tt
drop-IsSimple (suc c) (x ∷ xs) h = drop-IsSimple c xs h.1

-- Where a path is read, it is read at each place before.
pub get_elem?-earlier :
    (xs : List ℕ) (i a : ℕ) → get_elem? xs (suc i) ≡ some a → (b : ℕ) × (get_elem? xs i ≡ some b)
get_elem?-earlier [] i a h = cc
get_elem?-earlier (x ∷ xs) zero a h = (x, refl)
get_elem?-earlier (x ∷ xs) (suc i) a h = get_elem?-earlier xs i a h
