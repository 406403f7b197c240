-- ===== src/HashMap/Keys.antt =====
-- Maps whose keys are distinct, which is what the updates keep.
use dl_dsr_rs.Base.{◌≡◌, refl, Bool, [], ◌∷◌, none, some, Eq, if◌then◌else◌, arith, filter}
use dl_dsr_rs.HashMap.{HashMap, get, insert}
use dl_dsr_rs.HashMap.Laws.{get-insert}

module _ {K V : Type 0} ⦃e : Eq K⦄ where
  abbrev pub HasDistinctKeys : HashMap K V → Type 0
  HasDistinctKeys [] = Unit
  HasDistinctKeys ((k, _) ∷ m) = (get k m ≡ none) × HasDistinctKeys m

  pub insert-HasDistinctKeys :
      (k : K) (v : V) (m : HashMap K V) → HasDistinctKeys m → HasDistinctKeys (insert k v m)
  unfolding get insert
  insert-HasDistinctKeys k v [] h = ground arith
  insert-HasDistinctKeys k v ((j, w) ∷ m) h =
      ground (arith, e.beq_iff k j, e.beq_iff j k, get-insert k j v m, insert-HasDistinctKeys k v m)

  pub get-filter-none :
      (p : K × V → Bool) (j : K) (m : HashMap K V) → get j m ≡ none → get j (filter p m) ≡ none
  unfolding get
  get-filter-none p j [] h = refl
  get-filter-none p j ((i, w) ∷ m) h = ground (arith, get-filter-none p j m)

  pub filter-HasDistinctKeys :
      (p : K × V → Bool) (m : HashMap K V) → HasDistinctKeys m → HasDistinctKeys (filter p m)
  filter-HasDistinctKeys p [] h = tt
  filter-HasDistinctKeys p ((k, v) ∷ m) h =
      ground (arith, get-filter-none p k m, filter-HasDistinctKeys p m)

  -- A lookup in the entries that pass.
  pub get-filter :
      (p : K × V → Bool) (j : K) (m : HashMap K V)
      → HasDistinctKeys m
      → get j (filter p m)
        ≡ elim (get j m) [ none ↦ none | some v ↦ if p (j, v) then some v else none ]
  unfolding get
  get-filter p j [] h = refl
  get-filter p j ((i, w) ∷ m) h =
      ground (arith, e.beq_iff i j, get-filter p j m, get-filter-none p j m)
