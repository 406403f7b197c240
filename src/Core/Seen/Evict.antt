-- ===== src/Core/Seen/Evict.antt =====
-- `enforce_max_entries`: the bound that it restores, and the entries that it drops.
use dl_dsr_rs.Base.{
  ℕ, zero, suc, ◌-◌, ◌≤◌, ◌≡◌, refl, sym, ◌∙◌, inl, inr, ◌&&◌, Bool, true, false, not, List, [],
  ◌∷◌, none, some, Bool-cases, pair_eq, length, filter, take, ◌==◌, if◌then◌else◌, All, arith,
}
use dl_dsr_rs.HashMap.{HashMap, get, remove, contains_key}
use dl_dsr_rs.HashMap.Laws.{get-remove}
use dl_dsr_rs.HashMap.Keys.{HasDistinctKeys, filter-HasDistinctKeys}
use dl_dsr_rs.Core.Seen.{
  RequestKey, SeenRequests, entry_le, sort_entries, remove_entries, enforce_max_entries, len,
}
use dl_dsr_rs.Core.Seen.Order.{
  IsSorted, sort-IsSorted, length-filter-sort, length-sort, get-sort, entry_le_stamp,
}

-- A lookup after the removal of a list of entries.
pub get-remove_entries :
    (j : RequestKey) (es : List (RequestKey × ℕ)) (m : HashMap RequestKey ℕ)
    → get j (remove_entries es m) ≡ (if contains_key j es then none else get j m)
unfolding get remove_entries
get-remove_entries j [] m = refl
get-remove_entries j ((k, v) ∷ es) m =
    ground (arith, get-remove_entries j es (remove k m), get-remove k j m)

abbrev misses : List (RequestKey × ℕ) → RequestKey × ℕ → Bool
misses es e = not (contains_key e.0 es)

filter-filter :
    (p q : RequestKey × ℕ → Bool) (m : HashMap RequestKey ℕ)
    → filter p (filter q m) ≡ filter (λ e. q e && p e) m
filter-filter p q [] = refl
filter-filter p q (e ∷ m) = ground (arith, filter-filter p q m)

filter_congr :
    (p q : RequestKey × ℕ → Bool) (m : HashMap RequestKey ℕ)
    → ((e : RequestKey × ℕ) → p e ≡ q e)
    → filter p m ≡ filter q m
filter_congr p q [] h = refl
filter_congr p q (e ∷ m) h = ground (arith, h e, filter_congr p q m h)

filter_all :
    (p : RequestKey × ℕ → Bool) (m : HashMap RequestKey ℕ)
    → ((e : RequestKey × ℕ) → p e ≡ true)
    → filter p m ≡ m
filter_all p [] h = refl
filter_all p (e ∷ m) h = ground (arith, h e, filter_all p m h)

-- The removal is a filter.
remove_entries-filter :
    (es : List (RequestKey × ℕ)) (m : HashMap RequestKey ℕ)
    → remove_entries es m ≡ filter (misses es) m
unfolding get remove remove_entries
remove_entries-filter [] m = sym (filter_all (misses []) m (λ e. refl))
remove_entries-filter ((k, v) ∷ es) m =
    remove_entries-filter es (remove k m)
    ∙ filter-filter (misses es) (λ e. not (e.0 == k)) m
    ∙ filter_congr (λ e. not (e.0 == k) && misses es e) (misses ((k, v) ∷ es)) m
        (λ e. ground (arith, pair_eq.beq_iff e.0 k, pair_eq.beq_iff k e.0))

-- Of a sorted list, the entries whose keys are not among the first `n` number at most the rest.
contained-cons :
    (e : RequestKey × ℕ) (es fs : List (RequestKey × ℕ))
    → All (λ f. contains_key f.0 es ≡ true) fs
    → All (λ f. contains_key f.0 (e ∷ es) ≡ true) fs
unfolding get
contained-cons e es [] h = tt
contained-cons (k, v) es (f ∷ fs) h = (ground arith, contained-cons (k, v) es fs h.1)

contained_self : (es : List (RequestKey × ℕ)) → All (λ f. contains_key f.0 es ≡ true) es
unfolding get
contained_self [] = tt
contained_self ((k, v) ∷ es) =
    (ground (arith, pair_eq.beq_iff k k), contained-cons (k, v) es es (contained_self es))

filter_contained :
    (es fs : List (RequestKey × ℕ))
    → All (λ f. contains_key f.0 es ≡ true) fs
    → filter (misses es) fs ≡ []
filter_contained es [] h = refl
filter_contained es (f ∷ fs) h = ground (arith, filter_contained es fs h.1)

pub length-filter-le :
    (p : RequestKey × ℕ → Bool) (es : List (RequestKey × ℕ)) → length (filter p es) ≤ length es
length-filter-le p [] = omega arith
length-filter-le p (e ∷ es) = ground (arith, length-filter-le p es)

length-filter-split :
    (p : RequestKey × ℕ → Bool) (n : ℕ) (es : List (RequestKey × ℕ))
    → filter p (take n es) ≡ []
    → length (filter p es) ≤ length es - n
length-filter-split p zero es h = omega (arith, length-filter-le p es)
length-filter-split p (suc n) [] h = omega arith
length-filter-split p (suc n) (e ∷ es) h = ground (arith, length-filter-split p n es)

-- At most `max_entries` entries are left, whatever the table was.
pub len-enforce-le :
    (s : SeenRequests) (max_entries : ℕ) → len (enforce_max_entries s max_entries) ≤ max_entries
unfolding enforce_max_entries
len-enforce-le s max_entries =
    let sorted = sort_entries s.seen in
    let n = length sorted - max_entries in
    let gone = take n sorted in
    ground (
      arith,
      remove_entries-filter gone s.seen,
      length-filter-sort (misses gone) s.seen,
      length-filter-split (misses gone) n sorted (filter_contained gone gone (contained_self gone)),
      length-sort s.seen,
    )

-- In a sorted list, an entry among the first `n` stands before one that is not.
take_before :
    (n : ℕ) (i j : RequestKey) (t u : ℕ) (es : List (RequestKey × ℕ))
    → IsSorted es
    → contains_key i (take n es) ≡ true
    → get i es ≡ some t
    → contains_key j (take n es) ≡ false
    → get j es ≡ some u
    → entry_le (i, t) (j, u) ≡ true
unfolding get
take_before zero i j t u es h a b c d = cc
take_before (suc n) i j t u [] h a b c d = cc
take_before (suc n) i j t u ((k, v) ∷ es) h a b c d = elim (Bool-cases (k == i)) [
  | inl here ↦ ground (arith, pair_eq.beq_iff k i, get_bound (k, v) j u es h.0)
  | inr there ↦ ground (arith, take_before n i j t u es)
]
  where
    get_bound :
        (e : RequestKey × ℕ) (j : RequestKey) (u : ℕ) (es : List (RequestKey × ℕ))
        → All (λ f. entry_le e f ≡ true) es
        → get j es ≡ some u
        → entry_le e (j, u) ≡ true
    get_bound e j u [] h g = cc
    get_bound e j u ((i, w) ∷ es) h g = ground (arith, pair_eq.beq_iff i j, get_bound e j u es h.1)

-- In a table with distinct keys, an entry that the bound drops was marked no later than any entry
-- that stays, and what stays is unchanged.
pub enforce_drops_oldest :
    (s : SeenRequests) (max_entries : ℕ) (i j : RequestKey) (t u : ℕ)
    → HasDistinctKeys s.seen
    → get i s.seen ≡ some t
    → get i (enforce_max_entries s max_entries).seen ≡ none
    → get j (enforce_max_entries s max_entries).seen ≡ some u
    → (get j s.seen ≡ some u) × (t ≤ u)
unfolding enforce_max_entries get
enforce_drops_oldest s max_entries i j t u h a b c =
    let sorted = sort_entries s.seen in
    let n = length sorted - max_entries in
    ground (
      arith,
      get-remove_entries i (take n sorted) s.seen,
      get-remove_entries j (take n sorted) s.seen,
      take_before n i j t u sorted (sort-IsSorted s.seen),
      get-sort i s.seen h,
      get-sort j s.seen h,
      entry_le_stamp (i, t) (j, u),
    )

pub remove_entries-HasDistinctKeys :
    (es : List (RequestKey × ℕ)) (m : HashMap RequestKey ℕ)
    → HasDistinctKeys m
    → HasDistinctKeys (remove_entries es m)
unfolding remove remove_entries
remove_entries-HasDistinctKeys [] m h = h
remove_entries-HasDistinctKeys ((k, v) ∷ es) m h =
    remove_entries-HasDistinctKeys es (remove k m) (filter-HasDistinctKeys _ m h)
