-- ===== src/Core/Tables/Assign.antt =====
-- `assign_or_reuse_label`: what it returns, what it keeps, and when it fails.
use dl_dsr_rs.Base.{
  ℕ, zero, suc, ◌+◌, ◌-◌, ◌≤◌, ◌<◌, ◌≡◌, refl, subst, find?, ◌≢◌, inl, inr, Bool, true, false, not,
  [], ◌∷◌, none, some, Bool-cases, Option-cases, any, nat_eq, nat_beq, ◌==◌, arith, ok, All,
}
use dl_dsr_rs.HashMap.{HashMap, get, insert, values}
use dl_dsr_rs.HashMap.Laws.{get-insert}
use dl_dsr_rs.Core.Socket.{SocketAddr}
use dl_dsr_rs.Core.Topology.{count_up}
use dl_dsr_rs.Core.Tables.{
  NeighborEntry, NeighborTable, has_label, u8_max, find_in_range, free_label, assign_or_reuse_label,
  neighbor_by_label,
}
use dl_dsr_rs.Core.Tables.Labels.{
  HasOwnLabels, get-IsLabelled, insert_new-HasOwnLabels, insert_old-HasOwnLabels, find?-label,
}

pub find_in_range_found :
    (c n : ℕ) (p : ℕ → Bool) (l : ℕ)
    → find_in_range c n p ≡ some l
    → (p l ≡ true) × (c ≤ l) × (l < c + n)
unfolding find_in_range
find_in_range_found c zero p l h = cc
find_in_range_found c (suc n) p l h = ground (arith, find_in_range_found (suc c) n p l)

-- The label found is the least.
pub find_in_range_least :
    (c n : ℕ) (p : ℕ → Bool) (l j : ℕ) → find_in_range c n p ≡ some l → c ≤ j → j < l → p j ≡ false
unfolding find_in_range
find_in_range_least c zero p l j h a b = cc
find_in_range_least c (suc n) p l j h a b = elim (Bool-cases (nat_beq c j)) [
  | inl e ↦ ground arith
  | inr e ↦ ground (arith, find_in_range_least (suc c) n p l j)
]

pub find_in_range-none :
    (c n : ℕ) (p : ℕ → Bool) (j : ℕ) → find_in_range c n p ≡ none → c ≤ j → j < c + n → p j ≡ false
unfolding find_in_range
find_in_range-none c zero p j h a b = absurd (omega arith)
find_in_range-none c (suc n) p j h a b = elim (Bool-cases (nat_beq c j)) [
  | inl e ↦ ground arith
  | inr e ↦ ground (arith, find_in_range-none (suc c) n p j)
]

All-count_up :
    (P : ℕ → Type 0) (i n : ℕ) → ((j : ℕ) → i ≤ j → j < i + n → P j) → All P (count_up i n)
All-count_up P i zero h = tt
All-count_up P i (suc n) h = (
  h i (omega arith) (omega arith),
  All-count_up P (suc i) n (λ j a b. h j (omega (arith, a)) (omega (arith, b))),
)

-- The entry that a call leaves for a node that had none, and for one that had one.
abbrev fresh_entry : ℕ → SocketAddr → ℕ → ℕ → NeighborEntry
fresh_entry node_id endpoint now label = record {
  node_id = node_id;
  label_assigned_by_me_to_neighbor = label;
  last_seen_millis = now;
  endpoint = endpoint;
  alive = true;
}

abbrev refreshed : SocketAddr → ℕ → NeighborEntry → NeighborEntry
refreshed endpoint now e = record e { endpoint = endpoint; last_seen_millis = now; alive = true }

free_label-free :
    (t : NeighborTable) (l : ℕ)
    → free_label t ≡ some l
    → (any (has_label l) (values t.entries) ≡ false) × (1 ≤ l) × (l ≤ u8_max)
unfolding free_label
free_label-free t l h =
    let f =
      find_in_range_found 1 255 (λ candidate. not (any (has_label candidate) (values t.entries))) l
        h in
    ground (arith, f)

module _ (t : NeighborTable) (n : ℕ) (a : SocketAddr) (now : ℕ) where
  -- The table after a call still gives each entry its own label.
  pub assign-HasOwnLabels :
      HasOwnLabels t.entries → HasOwnLabels (assign_or_reuse_label t n a now).0.entries
  unfolding assign_or_reuse_label
  assign-HasOwnLabels h = elim (Option-cases (get n t.entries)) [
    | inr (e, g) ↦
        let i = get-IsLabelled n e t.entries h g in
        rw (g, assign_or_reuse_label)
          (insert_old-HasOwnLabels n (refreshed a now e) e t.entries h (i.0, refl, i.2, i.3) g refl)
    | inl g ↦ elim (Option-cases (free_label t)) [
      | inl f ↦ rw (g, f, assign_or_reuse_label) h
      | inr (l, f) ↦
          let (free, low, high) = free_label-free t l f in
          rw (g, f, assign_or_reuse_label)
            (insert_new-HasOwnLabels n (fresh_entry n a now l) t.entries h (refl, refl, low, high) g
              free)
    ]
  ]

  -- The entry that the call leaves under the node has the label that it returns, and the address.
  pub get-assign :
      (l : ℕ)
      → HasOwnLabels t.entries
      → (assign_or_reuse_label t n a now).1 ≡ ok l
      → (e : NeighborEntry) × (get n (assign_or_reuse_label t n a now).0.entries ≡ some e)
        × (e.label_assigned_by_me_to_neighbor ≡ l)
        × (e.node_id ≡ n)
        × (e.endpoint ≡ a)
  unfolding assign_or_reuse_label
  get-assign l h q = elim (Option-cases (get n t.entries)) [
    | inr (e, g) ↦
        let i = get-IsLabelled n e t.entries h g in
        (
          refreshed a now e,
          ground (arith, get-insert n n (refreshed a now e) t.entries),
          ground arith,
          i.0,
          refl,
        )
    | inl g ↦ (
      fresh_entry n a now l,
      ground (arith, get-insert n n (fresh_entry n a now l) t.entries),
      refl,
      refl,
      refl,
    )
  ]

  -- Every other node keeps its entry, and a node that has a label keeps it.
  pub get-assign_ne :
      (j : ℕ) → j ≢ n → get j (assign_or_reuse_label t n a now).0.entries ≡ get j t.entries
  unfolding assign_or_reuse_label
  get-assign_ne j ne = elim (Option-cases (get n t.entries)) [
    | inr (e, g) ↦ ground (arith, get-insert n j (refreshed a now e) t.entries)
    | inl g ↦ elim (Option-cases (free_label t)) [
      | inl f ↦ ground arith
      | inr (l, f) ↦ ground (arith, get-insert n j (fresh_entry n a now l) t.entries)
    ]
  ]

  pub assign_reuses :
      (e : NeighborEntry)
      → get n t.entries ≡ some e
      → (assign_or_reuse_label t n a now).1 ≡ ok e.label_assigned_by_me_to_neighbor
  unfolding assign_or_reuse_label
  assign_reuses e g = rw (g, assign_or_reuse_label)

  -- Where a node without an entry is given a label, it is at least 1, no live entry has it, and
  -- one has each smaller label from 1 on.
  pub assign_least :
      (l : ℕ)
      → get n t.entries ≡ none
      → (assign_or_reuse_label t n a now).1 ≡ ok l
      → (1 ≤ l)
        × (any (has_label l) (values t.entries) ≡ false)
        × All (λ j. any (has_label j) (values t.entries) ≡ true) (count_up 1 (l - 1))
  unfolding assign_or_reuse_label free_label
  assign_least l g q = elim (Option-cases (free_label t)) [
    | inl f ↦ absurd (ground arith)
    | inr (k, f) ↦
        let p : ℕ → Bool = λ candidate. not (any (has_label candidate) (values t.entries)) in
        let e : k ≡ l = ground arith in
        let found = subst (λ x. find_in_range 1 u8_max p ≡ some x) e f in
        let (free, low, high) = free_label-free t l found in
        (
          low,
          free,
          All-count_up (λ j. any (has_label j) (values t.entries) ≡ true) 1 (l - 1)
              (λ j from less.
                ground (
                  arith,
                  find_in_range_least 1 u8_max p l j found from (omega (arith, less, low)),
                )),
        )
  ]

  -- In a table that gives each entry its own label, the label that a call returns finds, in the
  -- table that the call leaves, the node of the call at the address of the call; and it is from 1
  -- to 255.
  pub neighbor_by_label-assign :
      (l : ℕ)
      → HasOwnLabels t.entries
      → (assign_or_reuse_label t n a now).1 ≡ ok l
      → (e : NeighborEntry) × (neighbor_by_label (assign_or_reuse_label t n a now).0 l ≡ some e)
        × (e.node_id ≡ n)
        × (e.endpoint ≡ a)
        × (1 ≤ l)
        × (l ≤ u8_max)
  unfolding neighbor_by_label
  neighbor_by_label-assign l h q =
      let (e, g, le, ne, ae) = get-assign l h q in
      let own = assign-HasOwnLabels h in
      let (_, _, low, high) = get-IsLabelled n e _ own g in
      (
        e,
        subst
            (λ k. find? (has_label k) (values (assign_or_reuse_label t n a now).0.entries) ≡ some e)
            le (find?-label n e _ own g),
        ne,
        ae,
        rw (← le) low,
        rw (← le) high,
      )

-- An insertion keeps what holds of every key.
insert-All :
    (P : ℕ → Type 0) (k : ℕ) (e : NeighborEntry) (m : HashMap ℕ NeighborEntry)
    → P k
    → All (λ x. P x.0) m
    → All (λ x. P x.0) (insert k e m)
unfolding insert
insert-All P k e [] p h = (p, tt)
insert-All P k e ((j, f) ∷ m) p h = elim (Bool-cases (j == k)) [
  | inl q ↦ rw q (p, h.1)
  | inr q ↦ rw q (h.0, insert-All P k e m p h.1)
]

pub assign-All :
    (P : ℕ → Type 0) (t : NeighborTable) (n : ℕ) (a : SocketAddr) (now : ℕ)
    → P n
    → All (λ x. P x.0) t.entries
    → All (λ x. P x.0) (assign_or_reuse_label t n a now).0.entries
unfolding assign_or_reuse_label
assign-All P t n a now p h = elim (Option-cases (get n t.entries)) [
  | inr (e, g) ↦ rw (g, assign_or_reuse_label) (insert-All P n (refreshed a now e) t.entries p h)
  | inl g ↦ elim (Option-cases (free_label t)) [
    | inl f ↦ rw (g, f, assign_or_reuse_label) h
    | inr (l, f) ↦
        rw (g, f, assign_or_reuse_label) (insert-All P n (fresh_entry n a now l) t.entries p h)
  ]
]
