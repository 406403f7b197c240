-- ===== src/Core/Seen/Forgotten.antt =====
-- A full table of one millisecond: the entry that sorts first is the one just made.
use dl_dsr_rs.Base.{
  ℕ, suc, ◌-◌, ◌≤◌, ◌≡◌, refl, true, false, [], ◌∷◌, ◌++◌, none, pair_eq, length, length-append,
  All, arith,
}
use dl_dsr_rs.HashMap.{HashMap, get, insert, remove}
use dl_dsr_rs.Core.Seen.Order.{length-sort}
use dl_dsr_rs.Core.Seen.{
  RequestKey, SeenRequests, entry_le, insert_sorted, sort_entries, remove_entries,
  enforce_max_entries, mark_if_new, prune, len,
}

insert_absent :
    (k : RequestKey) (v : ℕ) (m : HashMap RequestKey ℕ)
    → get k m ≡ none
    → insert k v m ≡ m ++ ((k, v) ∷ [])
unfolding get insert
insert_absent k v [] h = refl
insert_absent k v ((j, w) ∷ m) h = ground (arith, insert_absent k v m)

remove_last :
    (k : RequestKey) (v : ℕ) (m : HashMap RequestKey ℕ)
    → get k m ≡ none
    → remove k (m ++ ((k, v) ∷ [])) ≡ m
unfolding get remove
remove_last k v [] h = ground (arith, pair_eq.beq_iff k k)
remove_last k v ((j, w) ∷ m) h = ground (arith, remove_last k v m)

sort_least :
    (e : RequestKey × ℕ) (m : HashMap RequestKey ℕ)
    → All (λ f. entry_le f e ≡ false) m
    → sort_entries (m ++ (e ∷ [])) ≡ e ∷ sort_entries m
unfolding sort_entries insert_sorted
sort_least e [] h = refl
sort_least e (f ∷ m) h = ground (arith, sort_least e m h.1)

-- Where the table has no expired entry, is exactly full, with a bound of at least one, and each
-- entry sorts after the request, an unseen request is reported as new and the table is left as it
-- was: the same request is new again.
pub full_table_forgets :
    (s : SeenRequests) (src id now ttl max_entries : ℕ)
    → prune s now ttl ≡ s
    → get (src, id) s.seen ≡ none
    → All (λ f. entry_le f ((src, id), now) ≡ false) s.seen
    → len s ≡ max_entries
    → 1 ≤ max_entries
    → mark_if_new s src id now ttl max_entries ≡ (s, true)
unfolding mark_if_new enforce_max_entries remove_entries
full_table_forgets s src id now ttl max_entries p g a full pos =
    let k : RequestKey = (src, id) in
    let e : RequestKey × ℕ = (k, now) in
    let least = sort_least e s.seen a in
    let size = length-append s.seen (e ∷ []) in
    let count : suc (length (sort_entries s.seen)) - max_entries ≡ 1 =
      omega (arith, length-sort s.seen) in
    rw (p, insert_absent k now s.seen g, least, count, remove_last k now s.seen g)
      (ground (arith, g, size))
