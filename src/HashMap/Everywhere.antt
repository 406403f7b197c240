-- ===== src/HashMap/Everywhere.antt =====
-- What holds of every entry of a map, through a lookup and an insertion.
use dl_dsr_rs.Base.{◌≡◌, inl, inr, Bool-cases, [], ◌∷◌, some, subst, Eq, ◌==◌, All, arith}
use dl_dsr_rs.HashMap.{HashMap, get, insert}

module _ {K V : Type 0} ⦃e : Eq K⦄ (P : K × V → Type 0) where
  pub get-All : (k : K) (v : V) (m : HashMap K V) → All P m → get k m ≡ some v → P (k, v)
  unfolding get
  get-All k v [] h g = cc
  get-All k v ((j, w) ∷ m) h g = elim (Bool-cases (j == k)) [
    | inr q ↦ get-All k v m h.1 (ground arith)
    | inl q ↦
        let at : j ≡ k = (e.beq_iff j k).0 q in
        let is : w ≡ v = ground arith in subst (λ u. P (k, u)) is (subst (λ i. P (i, w)) at h.0)
  ]

  pub insert-All : (k : K) (v : V) (m : HashMap K V) → P (k, v) → All P m → All P (insert k v m)
  unfolding insert
  insert-All k v [] p h = (p, tt)
  insert-All k v ((j, w) ∷ m) p h = elim (Bool-cases (j == k)) [
    | inl q ↦ rw q (p, h.1)
    | inr q ↦ rw q (h.0, insert-All k v m p h.1)
  ]
