-- ===== src/HashMap.antt =====
-- `std::collections::HashMap`, as the list of its entries in the order in which it iterates.
-- A new key goes to the end. The real order is not specified.
pub mod Laws
pub mod Keys
pub mod Everywhere
use dl_dsr_rs.Base.{
  Bool, List, [], ◌∷◌, Option, none, some, Eq, ◌==◌, if◌then◌else◌, is_some, map, filter, not,
}

abbrev pub HashMap : Type 0 → Type 0 → Type 0
HashMap K V = List (K × V)

module _ {K V : Type 0} where
  -- `m.values()`
  abbrev pub values : HashMap K V → List V
  values = map (λ e. e.1)

  -- `m.retain(f)`
  abbrev pub retain : (K → V → Bool) → HashMap K V → HashMap K V
  retain f = filter (λ e. f e.0 e.1)

module _ {K V : Type 0} ⦃e : Eq K⦄ where
  -- `m.get(&k)`
  unfoldable pub get : K → HashMap K V → Option V
  get k [] = none
  get k ((j, v) ∷ m) = if j == k then some v else get k m

  -- `m.insert(k, v)`
  unfoldable pub insert : K → V → HashMap K V → HashMap K V
  insert k v [] = (k, v) ∷ []
  insert k v ((j, w) ∷ m) = if j == k then (k, v) ∷ m else (j, w) ∷ insert k v m

  -- `m.remove(&k)`
  unfoldable pub remove : K → HashMap K V → HashMap K V
  remove k = filter (λ e. not (e.0 == k))

  -- `m.contains_key(&k)`
  abbrev pub contains_key : K → HashMap K V → Bool
  contains_key k m = is_some (get k m)
