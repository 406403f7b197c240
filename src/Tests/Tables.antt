-- ===== src/Tests/Tables.antt =====
-- The theorems on the tables, the cache and the codec, at concrete inputs.
use dl_dsr_rs.Base.{
  List, All, ℕ, zero, suc, ◌≤◌, ◌≡◌, refl, ◌↔◌, true, false, [], ◌∷◌, some, none, any, arith,
  length, get_elem?, ◌-◌, nat_eq, pair_eq,
}
use dl_dsr_rs.HashMap.{HashMap, get, values}
use dl_dsr_rs.Core.Tables.{
  NeighborEntry, NeighborTable, has_label, neighbor_by_label, assign_or_reuse_label,
}
use dl_dsr_rs.Core.Tables.Labels.{neighbor_by_label_iff}
use dl_dsr_rs.Core.Tables.Assign.{neighbor_by_label-assign, assign_least}
use dl_dsr_rs.Core.Tables.Exhaustion.{assign_fails}
use dl_dsr_rs.Core.Routes.{
  RouteEntry, RouteCache, new_dsr, hop_count, insert_route, routes_for, shortest,
}
use dl_dsr_rs.Core.Routes.Shortest.{keep_less, shortest_least, shortest-some, shortest-insert_route}
use dl_dsr_rs.Core.Seen.{SeenRequests, mark_if_new}
use dl_dsr_rs.Core.Seen.Duplicates.{mark_if_new-duplicate_iff}
use dl_dsr_rs.Core.Seen.Window.{Arrival}
use dl_dsr_rs.Core.Seen.Recent.{mark_all, mark_if_new-remembers}
use dl_dsr_rs.Core.Seen.Evict.{enforce_drops_oldest}
use dl_dsr_rs.Core.Seen.Forgotten.{full_table_forgets}
use dl_dsr_rs.Core.Topology.{endpoints, chain, node}
use dl_dsr_rs.Core.Topology.Chain.{node-chain}
use dl_dsr_rs.Tests.Inputs.{addr}
use dl_dsr_rs.Tests.Program.{program}

abbrev entry_of : ℕ → ℕ → NeighborEntry
entry_of n l = record {
  node_id = n;
  label_assigned_by_me_to_neighbor = l;
  last_seen_millis = 1000;
  endpoint = addr n;
  alive = true;
}

-- Labels 1 and 3.
abbrev table : NeighborTable
table = record { entries = (4, entry_of 4 1) ∷ (5, entry_of 5 3) ∷ [] }

neighbor_by_label_iff_example : (neighbor_by_label table 3 ≡ some (entry_of 5 3)) ↔ (
    (get 5 table.entries ≡ some (entry_of 5 3))
    × ((entry_of 5 3).label_assigned_by_me_to_neighbor ≡ 3))
unfolding program
neighbor_by_label_iff_example = neighbor_by_label_iff table 3 (entry_of 5 3) (
  refl,
  refl,
  omega arith,
  omega arith,
  refl,
  refl,
  (refl, refl, omega arith, omega arith, refl, refl, tt),
)

neighbor_by_label-assign_example :
    (e : NeighborEntry) × (neighbor_by_label (assign_or_reuse_label table 6 (addr 6) 1000).0 2
      ≡ some e)
    × (e.node_id ≡ 6)
    × (e.endpoint ≡ addr 6)
    × (1 ≤ 2)
    × (2 ≤ 255)
unfolding program
neighbor_by_label-assign_example =
    neighbor_by_label-assign table 6 (addr 6) 1000 2
      (
        refl,
        refl,
        omega arith,
        omega arith,
        refl,
        refl,
        (refl, refl, omega arith, omega arith, refl, refl, tt),
      )
      refl

assign_least_example :
    (1 ≤ 2)
    × (any (has_label 2) (values table.entries) ≡ false)
    × All (λ j. any (has_label j) (values table.entries) ≡ true) (1 ∷ [])
unfolding program
assign_least_example = assign_least table 6 (addr 6) 1000 2 refl refl

-- The nodes 1 to `n`, each with its own number as its label.
abbrev full : ℕ → HashMap ℕ NeighborEntry
full zero = []
full (suc n) = (suc n, entry_of (suc n) (suc n)) ∷ full n

assign_fails_example :
    (get 0 (full 255) ≡ none)
    × ((assign_or_reuse_label (record { entries = full 255 }) 0 (addr 0) 1000).0
        ≡ record { entries = full 255 })
    × (255 ≤ length (values (full 255)))
unfolding program
assign_fails_example = assign_fails (record { entries = full 255 }) 0 (addr 0) 1000 refl

abbrev long : RouteEntry
long = new_dsr 3 (0 ∷ 1 ∷ 2 ∷ 3 ∷ []) 9000

abbrev short : RouteEntry
short = new_dsr 3 (0 ∷ 2 ∷ 3 ∷ []) 8000

abbrev cache : RouteCache
cache = record { routes = (3, long ∷ short ∷ []) ∷ [] }

shortest_least_example :
    (1000 ≤ 8000)
    × ((i : ℕ) × (get_elem? (routes_for cache 3) i ≡ some short))
    × All (λ (x : RouteEntry). hop_count short ≤ hop_count x) (long ∷ short ∷ [])
unfolding program
shortest_least_example = shortest_least cache 3 1000 short refl

shortest-some_example :
    (r : RouteEntry) × (shortest cache 3 8500 ≡ some r) × (hop_count r ≤ hop_count long)
unfolding program
shortest-some_example = shortest-some cache 3 8500 long 0 refl (omega arith)

shortest-insert_route_example :
    shortest (insert_route cache (new_dsr 3 (0 ∷ 3 ∷ []) 9000)) 3 1000
    ≡ some (keep_less hop_count (shortest cache 3 1000) (new_dsr 3 (0 ∷ 3 ∷ []) 9000))
unfolding program
shortest-insert_route_example = shortest-insert_route cache (new_dsr 3 (0 ∷ 3 ∷ []) 9000) 3 1000

abbrev seen : SeenRequests
seen = record { seen = ((5, 1), 1000) ∷ ((6, 2), 990) ∷ [] }

mark_if_new-duplicate_iff_example :
    ((mark_if_new seen 6 2 1010 50 2).1 ≡ false)
    ↔ ((t : ℕ) × (get (6, 2) seen.seen ≡ some t) × (1010 - t ≤ 50))
unfolding program
mark_if_new-duplicate_iff_example = mark_if_new-duplicate_iff seen 6 2 1010 50 2 (refl, (refl, tt))

-- Another request, while the first is remembered.
abbrev others : List Arrival
others = record { key = (8, 1); now = 1015 } ∷ []

mark_if_new-remembers_example :
    (mark_if_new (mark_all 50 2 others (mark_if_new seen 1 1 1010 50 2).0) 1 1 1020 50 2).1 ≡ false
unfolding program
mark_if_new-remembers_example =
    mark_if_new-remembers seen 1 1 1010 1020 50 2 others (refl, (refl, tt))
      (omega arith, (omega arith, tt)) ((omega arith, omega arith), tt) (omega arith) (omega arith)

enforce_drops_oldest_example : (get (5, 1) seen.seen ≡ some 1000) × (990 ≤ 1000)
unfolding program
enforce_drops_oldest_example =
    enforce_drops_oldest seen 1 (6, 2) (5, 1) 990 1000 (refl, (refl, tt)) refl refl refl

full_table_forgets_example :
    mark_if_new (record { seen = ((5, 1), 1000) ∷ [] }) 4 1 1000 50 1
    ≡ (record { seen = ((5, 1), 1000) ∷ [] }, true)
unfolding program
full_table_forgets_example =
    full_table_forgets (record { seen = ((5, 1), 1000) ∷ [] }) 4 1 1000 50 1 refl refl (refl, tt)
      refl (omega arith)

node-chain_example :
    node (chain 4 7000) 2
    ≡ some (record { node_id = 2; endpoint = addr 7002; neighbors = 1 ∷ 3 ∷ [] })
node-chain_example = node-chain 4 7000 2 (omega arith) (omega arith)

endpoints_of_two : endpoints (chain 2 7000) ≡ (0, addr 7000) ∷ (1, addr 7001) ∷ []
unfolding program endpoints
endpoints_of_two = refl
