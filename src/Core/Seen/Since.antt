-- ===== src/Core/Seen/Since.antt =====
-- The entries of a table from a time on, and that a full table keeps them while there is room.
use dl_dsr_rs.Base.{
  ℕ, zero, suc, ◌+◌, ◌-◌, ◌≤◌, ◌<◌, ◌≡◌, refl, ◌∙◌, inl, inr, Bool, true, false, not, Bool-cases,
  [], ◌∷◌, some, pair_eq, ◌==◌, length, filter, take, leb, All, arith,
}
use dl_dsr_rs.HashMap.{HashMap, get, insert, remove, contains_key}
use dl_dsr_rs.HashMap.Keys.{HasDistinctKeys}
use dl_dsr_rs.Core.Seen.{RequestKey, entry_le, sort_entries, remove_entries, enforce_max_entries}
use dl_dsr_rs.Core.Seen.Order.{IsSorted, sort-IsSorted, get-sort, length-sort, length-filter-sort}
use dl_dsr_rs.Core.Seen.Evict.{get-remove_entries}

-- The number of entries from `now` on.
abbrev pub since : ℕ → HashMap RequestKey ℕ → ℕ
since now m = length (filter (λ f. leb now f.1) m)

pub since-older : (now : ℕ) (m : HashMap RequestKey ℕ) → All (λ f. f.1 < now) m → since now m ≡ 0
since-older now [] h = refl
since-older now (f ∷ m) h = let low = h.0 in ground (arith, since-older now m h.1)

pub since-insert :
    (now t : ℕ) (k : RequestKey) (m : HashMap RequestKey ℕ)
    → since now (insert k t m) ≤ since now m + 1
unfolding insert
since-insert now t k [] = ground arith
since-insert now t k ((j, w) ∷ m) = ground (arith, since-insert now t k m)

pub since-filter :
    (now : ℕ) (p : RequestKey × ℕ → Bool) (m : HashMap RequestKey ℕ)
    → since now (filter p m) ≤ since now m
since-filter now p [] = omega arith
since-filter now p (f ∷ m) = ground (arith, since-filter now p m)

since-remove_entries :
    (now : ℕ) (es m : HashMap RequestKey ℕ) → since now (remove_entries es m) ≤ since now m
unfolding remove_entries remove
since-remove_entries now [] m = omega arith
since-remove_entries now ((k, v) ∷ es) m =
    let less = since-filter now (λ e. not (e.0 == k)) m in
    omega (arith, less, since-remove_entries now es (remove k m))

since-all :
    (now : ℕ) (e : RequestKey × ℕ) (es : HashMap RequestKey ℕ)
    → now ≤ e.1
    → All (λ f. entry_le e f ≡ true) es
    → since now es ≡ length es
since-all now e [] low h = refl
since-all now e (f ∷ es) low h = let le = h.0 in ground (arith, since-all now e es low h.1)

-- In a sorted list an entry from `now` on is not among the first, where as many entries follow
-- those as there are from `now` on.
late_kept :
    (n now w : ℕ) (k : RequestKey) (es : HashMap RequestKey ℕ)
    → IsSorted es
    → get k es ≡ some w
    → now ≤ w
    → since now es + n ≤ length es
    → contains_key k (take n es) ≡ false
unfolding get
late_kept zero now w k es s g low room = refl
late_kept (suc n) now w k [] s g low room = cc
late_kept (suc n) now w k ((i, v) ∷ es) s g low room = elim (Bool-cases (i == k)) [
  | inl same ↦ let all = since-all now (i, v) es (ground arith) s.0 in absurd (ground (arith, all))
  | inr apart ↦
      let rest = late_kept n now w k es s.1 (ground arith) low (ground arith) in
      ground (arith, rest)
]

-- An entry from `now` on stays where there are no more of them than the table has room for.
pub get-enforce :
    (m : HashMap RequestKey ℕ) (max_entries now w : ℕ) (k : RequestKey)
    → HasDistinctKeys m
    → get k m ≡ some w
    → now ≤ w
    → since now m ≤ max_entries
    → 1 ≤ max_entries
    → get k (enforce_max_entries (record { seen = m }) max_entries).seen ≡ some w
unfolding enforce_max_entries
get-enforce m max_entries now w k own g low room pos =
    elim (Bool-cases (leb (length m) max_entries)) [
      | inl fits ↦ ground arith
      | inr over ↦
          let n = length (sort_entries m) - max_entries in
          let kept =
            late_kept n now w k (sort_entries m) (sort-IsSorted m) (get-sort k m own ∙ g) low
              (ground (arith, length-sort m, length-filter-sort (λ f. leb now f.1) m)) in
          ground (arith, kept, get-remove_entries k (take n (sort_entries m)) m)
    ]

pub since-enforce :
    (m : HashMap RequestKey ℕ) (max_entries now : ℕ)
    → since now (enforce_max_entries (record { seen = m }) max_entries).seen ≤ since now m
unfolding enforce_max_entries
since-enforce m max_entries now =
    let less =
      since-remove_entries now (take (length (sort_entries m) - max_entries) (sort_entries m)) m in
    ground (arith, less)
