-- ===== src/Core/Seen/Duplicates.antt =====
-- `mark_if_new`: the keys of the table stay distinct and the table bounded, and what a duplicate is.
use dl_dsr_rs.Base.{
  ℕ, ◌-◌, ◌≤◌, ◌≡◌, ◌↔◌, false, none, some, pair_eq, length, take, leb, if◌then◌else◌, arith,
}
use dl_dsr_rs.HashMap.{get, insert}
use dl_dsr_rs.HashMap.Keys.{
  HasDistinctKeys, insert-HasDistinctKeys, filter-HasDistinctKeys, get-filter,
}
use dl_dsr_rs.Core.Seen.{
  RequestKey, SeenRequests, sort_entries, enforce_max_entries, mark_if_new, prune, len,
}
use dl_dsr_rs.Core.Seen.Evict.{length-filter-le, len-enforce-le, remove_entries-HasDistinctKeys}

-- After any request the table holds at most `max_entries` entries.
pub len-mark_if_new-le :
    (s : SeenRequests) (src id now ttl max_entries : ℕ)
    → len (mark_if_new s src id now ttl max_entries).0 ≤ max_entries
unfolding mark_if_new
len-mark_if_new-le s src id now ttl max_entries = len-enforce-le _ max_entries

pub prune-HasDistinctKeys :
    (s : SeenRequests) (now ttl : ℕ)
    → HasDistinctKeys s.seen
    → HasDistinctKeys (prune s now ttl).seen
unfolding prune
prune-HasDistinctKeys s now ttl h = filter-HasDistinctKeys (λ e. leb (now - e.1) ttl) s.seen h

pub mark_if_new-HasDistinctKeys :
    (s : SeenRequests) (src id now ttl max_entries : ℕ)
    → HasDistinctKeys s.seen
    → HasDistinctKeys (mark_if_new s src id now ttl max_entries).0.seen
unfolding mark_if_new enforce_max_entries
mark_if_new-HasDistinctKeys s src id now ttl max_entries h =
    let pruned = (prune s now ttl).seen in
    let inserted = insert (src, id) now pruned in
    let own = insert-HasDistinctKeys (src, id) now pruned (prune-HasDistinctKeys s now ttl h) in
    ground (
      arith,
      own,
      remove_entries-HasDistinctKeys
          (take (length (sort_entries inserted) - max_entries) (sort_entries inserted)) inserted
          own,
    )

pub len-prune-le : (s : SeenRequests) (now ttl : ℕ) → len (prune s now ttl) ≤ len s
unfolding prune
len-prune-le s now ttl = length-filter-le (λ e. leb (now - e.1) ttl) s.seen

pub get-prune :
    (s : SeenRequests) (now ttl : ℕ) (k : RequestKey)
    → HasDistinctKeys s.seen
    → get k (prune s now ttl).seen
      ≡ elim (get k s.seen) [ none ↦ none | some t ↦ if leb (now - t) ttl then some t else none ]
unfolding prune
get-prune s now ttl k h = get-filter (λ e. leb (now - e.1) ttl) k s.seen h

-- In a table with distinct keys a request is a duplicate exactly where it was marked no longer
-- ago than the time to live.
pub mark_if_new-duplicate_iff :
    (s : SeenRequests) (src id now ttl max_entries : ℕ)
    → HasDistinctKeys s.seen
    → ((mark_if_new s src id now ttl max_entries).1 ≡ false)
      ↔ ((t : ℕ) × (get (src, id) s.seen ≡ some t) × (now - t ≤ ttl))
unfolding mark_if_new
mark_if_new-duplicate_iff s src id now ttl max_entries h =
    let g = get-prune s now ttl (src, id) h in
    (λ d. ground (arith, g), λ (t, e, fresh). ground (arith, g))
