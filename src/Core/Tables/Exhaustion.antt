-- ===== src/Core/Tables/Exhaustion.antt =====
-- The labels run out only when 255 entries hold them: a pigeonhole argument.
use dl_dsr_rs.Base.{
  ℕ, zero, suc, ◌≤◌, ◌<◌, ◌≡◌, true, not, List, [], ◌∷◌, none, any, nat_eq, nat_beq, arith, length,
  err, filter,
}
use dl_dsr_rs.HashMap.{get, values}
use dl_dsr_rs.Core.Socket.{SocketAddr}
use dl_dsr_rs.Core.Packet.{label_space_exhausted}
use dl_dsr_rs.Core.Tables.{
  NeighborEntry, NeighborTable, has_label, u8_max, free_label, assign_or_reuse_label,
}
use dl_dsr_rs.Core.Tables.Assign.{find_in_range-none}

-- The entries whose label is not `l`.
abbrev others : ℕ → List NeighborEntry → List NeighborEntry
others l = filter (λ e. not (nat_beq e.label_assigned_by_me_to_neighbor l))

length-others-le : (l : ℕ) (es : List NeighborEntry) → length (others l es) ≤ length es
length-others-le l [] = omega arith
length-others-le l (e ∷ es) = ground (arith, length-others-le l es)

length-others :
    (l : ℕ) (es : List NeighborEntry)
    → any (has_label l) es ≡ true
    → length (others l es) < length es
length-others l [] h = cc
length-others l (e ∷ es) h = ground (arith, length-others l es, length-others-le l es)

any-others :
    (l j : ℕ) (es : List NeighborEntry)
    → j < l
    → any (has_label j) es ≡ true
    → any (has_label j) (others l es) ≡ true
any-others l j [] lt h = cc
any-others l j (e ∷ es) lt h = ground (arith, any-others l j es)

-- Where each of the labels 1 to `n` is held, there are at least `n` entries.
labels_held :
    (n : ℕ) (es : List NeighborEntry)
    → ((j : ℕ) → 1 ≤ j → j ≤ n → any (has_label j) es ≡ true)
    → n ≤ length es
labels_held zero es h = omega arith
labels_held (suc n) es h =
    let fewer = length-others (suc n) es (h (suc n) (omega arith) (omega arith)) in
    let rest =
      labels_held n (others (suc n) es)
        (λ j low high. any-others (suc n) j es (omega arith) (h j low (omega arith))) in
    omega arith

free_label-none : (t : NeighborTable) → free_label t ≡ none → u8_max ≤ length (values t.entries)
unfolding free_label
free_label-none t h = labels_held u8_max (values t.entries) (λ j low high. ground (
  arith,
  find_in_range-none 1 u8_max (λ candidate. not (any (has_label candidate) (values t.entries))) j h,
))

-- Where a call fails, its node has no entry, the table stays as it was, and it holds at least 255
-- entries.
pub assign_fails :
    (t : NeighborTable) (n : ℕ) (a : SocketAddr) (now : ℕ)
    → (assign_or_reuse_label t n a now).1 ≡ err label_space_exhausted
    → (get n t.entries ≡ none)
      × ((assign_or_reuse_label t n a now).0 ≡ t)
      × (u8_max ≤ length (values t.entries))
unfolding assign_or_reuse_label
assign_fails t n a now h = ground (arith, free_label-none t)
