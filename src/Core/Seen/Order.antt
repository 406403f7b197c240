-- ===== src/Core/Seen/Order.antt =====
-- The sorted entries of the table: the same lookups, the same number, in order.
use dl_dsr_rs.Base.{
  ℕ, suc, ◌≤◌, ◌≡◌, refl, Bool, true, false, List, [], ◌∷◌, none, some, inl, inr, Bool-cases,
  pair_eq, length, filter, ◌==◌, if◌then◌else◌, All, arith,
}
use dl_dsr_rs.HashMap.{get}
use dl_dsr_rs.HashMap.Keys.{HasDistinctKeys}
use dl_dsr_rs.Core.Seen.{RequestKey, entry_le, insert_sorted, sort_entries}

pub entry_le_total : (e f : RequestKey × ℕ) → entry_le e f ≡ false → entry_le f e ≡ true
entry_le_total ((a, r), t) ((b, q), u) h = ground arith

pub entry_le_trans :
    (e f g : RequestKey × ℕ) → entry_le e f ≡ true → entry_le f g ≡ true → entry_le e g ≡ true
entry_le_trans ((a, r), t) ((b, q), u) ((c, s), v) h k = ground arith

pub entry_le_stamp : (e f : RequestKey × ℕ) → entry_le e f ≡ true → e.1 ≤ f.1
entry_le_stamp ((a, r), t) ((b, q), u) h = ground arith

-- Every entry is at most all that follow it.
abbrev pub IsSorted : List (RequestKey × ℕ) → Type 0
IsSorted [] = Unit
IsSorted (e ∷ es) = All (λ f. entry_le e f ≡ true) es × IsSorted es

All-insert_sorted :
    (P : RequestKey × ℕ → Type 0) (e : RequestKey × ℕ) (es : List (RequestKey × ℕ))
    → P e
    → All P es
    → All P (insert_sorted e es)
unfolding insert_sorted
All-insert_sorted P e [] h k = (h, tt)
All-insert_sorted P e (f ∷ es) h k = elim (Bool-cases (entry_le e f)) [
  | inl le ↦ rw le (h, k)
  | inr gt ↦ rw gt (k.0, All-insert_sorted P e es h k.1)
]

All-entry_le :
    (e f : RequestKey × ℕ) (es : List (RequestKey × ℕ))
    → entry_le e f ≡ true
    → All (λ g. entry_le f g ≡ true) es
    → All (λ g. entry_le e g ≡ true) es
All-entry_le e f [] h k = tt
All-entry_le e f (g ∷ es) h k = (entry_le_trans e f g h k.0, All-entry_le e f es h k.1)

insert_sorted-IsSorted :
    (e : RequestKey × ℕ) (es : List (RequestKey × ℕ)) → IsSorted es → IsSorted (insert_sorted e es)
unfolding insert_sorted
insert_sorted-IsSorted e [] h = (tt, tt)
insert_sorted-IsSorted e (f ∷ es) h = elim (Bool-cases (entry_le e f)) [
  | inl le ↦ rw le ((le, All-entry_le e f es le h.0), h)
  | inr gt ↦ rw gt (
    All-insert_sorted (λ g. entry_le f g ≡ true) e es (entry_le_total e f gt) h.0,
    insert_sorted-IsSorted e es h.1,
  )
]

pub sort-IsSorted : (es : List (RequestKey × ℕ)) → IsSorted (sort_entries es)
unfolding sort_entries
sort-IsSorted [] = tt
sort-IsSorted (e ∷ es) = insert_sorted-IsSorted e (sort_entries es) (sort-IsSorted es)

-- Sorting keeps how many entries pass a test, and so the number of entries.
length-filter-insert_sorted :
    (p : RequestKey × ℕ → Bool) (e : RequestKey × ℕ) (es : List (RequestKey × ℕ))
    → length (filter p (insert_sorted e es)) ≡ length (filter p (e ∷ es))
unfolding insert_sorted
length-filter-insert_sorted p e [] = refl
length-filter-insert_sorted p e (f ∷ es) = ground (arith, length-filter-insert_sorted p e es)

pub length-filter-sort :
    (p : RequestKey × ℕ → Bool) (es : List (RequestKey × ℕ))
    → length (filter p (sort_entries es)) ≡ length (filter p es)
unfolding sort_entries
length-filter-sort p [] = refl
length-filter-sort p (e ∷ es) =
    ground (arith, length-filter-insert_sorted p e (sort_entries es), length-filter-sort p es)

length-insert_sorted :
    (e : RequestKey × ℕ) (es : List (RequestKey × ℕ))
    → length (insert_sorted e es) ≡ suc (length es)
unfolding insert_sorted
length-insert_sorted e [] = refl
length-insert_sorted e (f ∷ es) = ground (arith, length-insert_sorted e es)

pub length-sort : (es : List (RequestKey × ℕ)) → length (sort_entries es) ≡ length es
unfolding sort_entries
length-sort [] = refl
length-sort (e ∷ es) = omega (arith, length-insert_sorted e (sort_entries es), length-sort es)

-- Sorting keeps every lookup, as the keys are distinct.
get-insert_sorted :
    (k j : RequestKey) (v : ℕ) (es : List (RequestKey × ℕ))
    → get k es ≡ none
    → get j (insert_sorted (k, v) es) ≡ (if k == j then some v else get j es)
unfolding get insert_sorted
get-insert_sorted k j v [] h = refl
get-insert_sorted k j v ((i, w) ∷ es) h = elim (Bool-cases (entry_le (k, v) (i, w))) [
  | inl le ↦ rw le
  | inr gt ↦ rw gt (
      ground (
        arith,
        get-insert_sorted k j v es,
        pair_eq.beq_iff i j,
        pair_eq.beq_iff k j,
        pair_eq.beq_iff i k,
      ))
]

pub get-sort :
    (j : RequestKey) (es : List (RequestKey × ℕ))
    → HasDistinctKeys es
    → get j (sort_entries es) ≡ get j es
unfolding get sort_entries
get-sort j [] h = refl
get-sort j ((k, v) ∷ es) h =
    ground (arith, get-insert_sorted k j v (sort_entries es), get-sort j es, get-sort k es)
