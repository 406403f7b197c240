-- ===== src/Core/Seen.antt =====
-- The requests that a node has seen (crates/dldsr-core/src/route.rs, `SeenRequests`).
pub mod Order
pub mod Evict
pub mod Duplicates
pub mod Forgotten
pub mod Window
pub mod Since
pub mod Recent
use dl_dsr_rs.Base.{
  ℕ, pair_eq, ◌-◌, Bool, not, ◌&&◌, ◌||◌, List, [], ◌∷◌, take, length, leb, ltb, nat_beq,
  saturating_sub, if◌then◌else◌,
}
use dl_dsr_rs.HashMap.{HashMap, insert, remove, retain, contains_key}

-- (source node, request id)
abbrev pub RequestKey : Type 0
RequestKey = ℕ × ℕ

pub record SeenRequests : Type 0 where
  pub seen : HashMap RequestKey ℕ

abbrev pub empty_seen : SeenRequests
empty_seen = record { seen = [] }

-- `SeenRequests::prune`
unfoldable pub prune : SeenRequests → ℕ → ℕ → SeenRequests
prune s now ttl_ms = record {
  seen = retain (λ _ seen_at. leb (saturating_sub now seen_at) ttl_ms) s.seen;
}

-- `SeenRequests::len`
abbrev pub len : SeenRequests → ℕ
len s = length s.seen

-- The order of the keys `(seen_at, key.0, key.1)`: less than or equal.
abbrev pub entry_le : RequestKey × ℕ → RequestKey × ℕ → Bool
entry_le ((a, r), t) ((b, q), u) = ltb t u || (nat_beq t u && (ltb a b || (nat_beq a b && leb r q)))

-- `entries.sort_by_key(...)`, which is stable: an insertion sort.
unfoldable pub insert_sorted : RequestKey × ℕ → List (RequestKey × ℕ) → List (RequestKey × ℕ)
insert_sorted e [] = e ∷ []
insert_sorted e (f ∷ es) = if entry_le e f then e ∷ f ∷ es else f ∷ insert_sorted e es

unfoldable pub sort_entries : List (RequestKey × ℕ) → List (RequestKey × ℕ)
sort_entries [] = []
sort_entries (e ∷ es) = insert_sorted e (sort_entries es)

-- The loop `for (key, _) in entries.into_iter().take(remove_count)`.
unfoldable pub remove_entries : List (RequestKey × ℕ) → HashMap RequestKey ℕ → HashMap RequestKey ℕ
remove_entries [] m = m
remove_entries ((key, _) ∷ es) m = remove_entries es (remove key m)

-- `SeenRequests::enforce_max_entries`
unfoldable pub enforce_max_entries : SeenRequests → ℕ → SeenRequests
enforce_max_entries s max_entries =
    if nat_beq max_entries 0
    then record { seen = [] }
    else if leb (len s) max_entries
    then s
    else let entries = sort_entries s.seen in
      let remove_count = length entries - max_entries in
      record { seen = remove_entries (take remove_count entries) s.seen }

-- `SeenRequests::mark_if_new`: the table and whether the request is new.
unfoldable pub mark_if_new : SeenRequests → ℕ → ℕ → ℕ → ℕ → ℕ → SeenRequests × Bool
mark_if_new s src_node_id request_id now ttl_ms max_entries =
    let pruned = prune s now ttl_ms in
    let is_new = not (contains_key (src_node_id, request_id) pruned.seen) in
    let inserted : SeenRequests = record {
      seen = insert (src_node_id, request_id) now pruned.seen;
    } in
    (enforce_max_entries inserted max_entries, is_new)
