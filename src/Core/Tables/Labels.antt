-- ===== src/Core/Tables/Labels.antt =====
-- The labels of the neighbour table: each live entry has its own, from 1 to 255.
use dl_dsr_rs.Base.{
  ℕ, ◌≤◌, ◌≡◌, ◌↔◌, Bool, true, false, ◌||◌, [], ◌∷◌, none, some, find?, any, nat_eq, arith,
}
use dl_dsr_rs.HashMap.{HashMap, get, insert, values}
use dl_dsr_rs.HashMap.Laws.{get-insert}
use dl_dsr_rs.Core.Tables.{NeighborEntry, NeighborTable, has_label, u8_max, neighbor_by_label}

-- Every entry stands under its own node, lives, and has a label in range that no other has.
abbrev pub HasOwnLabels : HashMap ℕ NeighborEntry → Type 0
HasOwnLabels [] = Unit
HasOwnLabels ((k, e) ∷ m) =
    (e.node_id ≡ k)
    × (e.alive ≡ true)
    × (1 ≤ e.label_assigned_by_me_to_neighbor)
    × (e.label_assigned_by_me_to_neighbor ≤ u8_max)
    × (get k m ≡ none)
    × (any (has_label e.label_assigned_by_me_to_neighbor) (values m) ≡ false)
    × HasOwnLabels m

-- The same of an entry alone.
abbrev pub IsLabelled : ℕ → NeighborEntry → Type 0
IsLabelled k e =
    (e.node_id ≡ k)
    × (e.alive ≡ true)
    × (1 ≤ e.label_assigned_by_me_to_neighbor)
    × (e.label_assigned_by_me_to_neighbor ≤ u8_max)

pub get-IsLabelled :
    (k : ℕ) (e : NeighborEntry) (m : HashMap ℕ NeighborEntry)
    → HasOwnLabels m
    → get k m ≡ some e
    → IsLabelled k e
unfolding get
get-IsLabelled k e [] h g = cc
get-IsLabelled k e ((j, f) ∷ m) h g = ground (arith, get-IsLabelled k e m)

-- What a scan of the values finds after an insertion under a new key, and under an old one.
any-insert_new :
    (p : NeighborEntry → Bool) (k : ℕ) (e : NeighborEntry) (m : HashMap ℕ NeighborEntry)
    → get k m ≡ none
    → any p (values (insert k e m)) ≡ (any p (values m) || p e)
unfolding get insert
any-insert_new p k e [] h = ground arith
any-insert_new p k e ((j, f) ∷ m) h = ground (arith, any-insert_new p k e m)

any-insert_old :
    (p : NeighborEntry → Bool) (k : ℕ) (e old : NeighborEntry) (m : HashMap ℕ NeighborEntry)
    → get k m ≡ some old
    → p e ≡ p old
    → any p (values (insert k e m)) ≡ any p (values m)
unfolding get insert
any-insert_old p k e old [] h q = cc
any-insert_old p k e old ((j, f) ∷ m) h q = ground (arith, any-insert_old p k e old m)

-- A scan for a label that fails says that the entry under a key has another.
pub label_free :
    (l k : ℕ) (e : NeighborEntry) (m : HashMap ℕ NeighborEntry)
    → any (has_label l) (values m) ≡ false
    → get k m ≡ some e
    → has_label l e ≡ false
unfolding get
label_free l k e [] h g = cc
label_free l k e ((j, f) ∷ m) h g = ground (arith, label_free l k e m)

pub insert_new-HasOwnLabels :
    (k : ℕ) (e : NeighborEntry) (m : HashMap ℕ NeighborEntry)
    → HasOwnLabels m
    → IsLabelled k e
    → get k m ≡ none
    → any (has_label e.label_assigned_by_me_to_neighbor) (values m) ≡ false
    → HasOwnLabels (insert k e m)
unfolding get insert
insert_new-HasOwnLabels k e [] h i g a = ground arith
insert_new-HasOwnLabels k e ((j, f) ∷ m) h i g a = ground (
  arith,
  insert_new-HasOwnLabels k e m,
  get-insert k j e m,
  any-insert_new (has_label f.label_assigned_by_me_to_neighbor) k e m,
)

pub insert_old-HasOwnLabels :
    (k : ℕ) (e old : NeighborEntry) (m : HashMap ℕ NeighborEntry)
    → HasOwnLabels m
    → IsLabelled k e
    → get k m ≡ some old
    → e.label_assigned_by_me_to_neighbor ≡ old.label_assigned_by_me_to_neighbor
    → HasOwnLabels (insert k e m)
unfolding get insert
insert_old-HasOwnLabels k e old [] h i g a = cc
insert_old-HasOwnLabels k e old ((j, f) ∷ m) h i g a = ground (
  arith,
  insert_old-HasOwnLabels k e old m,
  get-IsLabelled k old m,
  get-insert k j e m,
  any-insert_old (has_label f.label_assigned_by_me_to_neighbor) k e old m,
)

-- The entry under a key is the one that its label finds, whatever the order of the entries.
pub find?-label :
    (k : ℕ) (e : NeighborEntry) (m : HashMap ℕ NeighborEntry)
    → HasOwnLabels m
    → get k m ≡ some e
    → find? (has_label e.label_assigned_by_me_to_neighbor) (values m) ≡ some e
unfolding get
find?-label k e [] h g = cc
find?-label k e ((j, f) ∷ m) h g = ground (
  arith,
  find?-label k e m,
  get-IsLabelled k e m,
  label_free f.label_assigned_by_me_to_neighbor k e m,
)

pub find?_sound :
    (l : ℕ) (e : NeighborEntry) (m : HashMap ℕ NeighborEntry)
    → HasOwnLabels m
    → find? (has_label l) (values m) ≡ some e
    → (get e.node_id m ≡ some e) × (e.label_assigned_by_me_to_neighbor ≡ l)
unfolding get
find?_sound l e [] h g = cc
find?_sound l e ((j, f) ∷ m) h g = ground (arith, find?_sound l e m, get-IsLabelled e.node_id e m)

-- In a table that gives each entry its own label, a label finds an entry exactly where the entry
-- stands under its node with that label, whatever the order in which the map iterates.
pub neighbor_by_label_iff :
    (t : NeighborTable) (l : ℕ) (e : NeighborEntry)
    → HasOwnLabels t.entries
    → (neighbor_by_label t l ≡ some e)
      ↔ ((get e.node_id t.entries ≡ some e) × (e.label_assigned_by_me_to_neighbor ≡ l))
unfolding neighbor_by_label
neighbor_by_label_iff t l e h =
    (find?_sound l e t.entries h, λ (g, q). rw (← q) (find?-label e.node_id e t.entries h g))
