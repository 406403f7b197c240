-- ===== src/Core/Seen/Recent.antt =====
-- A marked request is remembered while fewer others come than the table has room for.
use dl_dsr_rs.Base.{
  ℕ, ◌+◌, ◌-◌, ◌≤◌, ◌<◌, ◌≡◌, ◌∙◌, inl, inr, false, Bool-cases, List, [], ◌∷◌, some, pair_eq, ◌==◌,
  length, leb, All, arith,
}
use dl_dsr_rs.HashMap.{get, insert}
use dl_dsr_rs.HashMap.Laws.{get-insert}
use dl_dsr_rs.HashMap.Keys.{HasDistinctKeys, insert-HasDistinctKeys}
use dl_dsr_rs.Core.Seen.{RequestKey, SeenRequests, prune, mark_if_new}
use dl_dsr_rs.Core.Seen.Duplicates.{
  get-prune, prune-HasDistinctKeys, mark_if_new-HasDistinctKeys, mark_if_new-duplicate_iff,
}
use dl_dsr_rs.Core.Seen.Window.{Arrival}
use dl_dsr_rs.Core.Seen.Since.{
  since, since-older, since-insert, since-filter, get-enforce, since-enforce,
}

module _ (s : SeenRequests) (src id t ttl max_entries now c : ℕ) (d : HasDistinctKeys s.seen)
    (few : since now s.seen ≤ c) (room : c + 1 ≤ max_entries) where
  mark_if_new-since : since now (mark_if_new s src id t ttl max_entries).0.seen ≤ c + 1
  unfolding mark_if_new prune
  mark_if_new-since =
      let pruned = (prune s t ttl).seen in
      let a = since-filter now (λ e. leb (t - e.1) ttl) s.seen in
      let b = since-insert now t (src, id) pruned in
      let e = since-enforce (insert (src, id) t pruned) max_entries now in
      omega (arith, a, b, e, few)

  mark_if_new-keeps :
      (k : RequestKey) (w : ℕ)
      → now ≤ t
      → get k (insert (src, id) t (prune s t ttl).seen) ≡ some w
      → now ≤ w
      → get k (mark_if_new s src id t ttl max_entries).0.seen ≡ some w
  unfolding mark_if_new prune
  mark_if_new-keeps k w late g low =
      let pruned = (prune s t ttl).seen in
      let a = since-filter now (λ e. leb (t - e.1) ttl) s.seen in
      let b = since-insert now t (src, id) pruned in
      get-enforce (insert (src, id) t pruned) max_entries now w k
        (insert-HasDistinctKeys (src, id) t pruned (prune-HasDistinctKeys s t ttl d)) g low
        (omega (arith, a, b, few)) (omega (arith, room))

  mark_if_new-marks :
      now ≤ t → get (src, id) (mark_if_new s src id t ttl max_entries).0.seen ≡ some t
  mark_if_new-marks late =
      mark_if_new-keeps (src, id) t late
        (get-insert (src, id) (src, id) t (prune s t ttl).seen
          ∙ ground (arith, pair_eq.beq_iff (src, id) (src, id)))
        late

  -- A mark from `now` on is kept, or renewed.
  mark_if_new-stays :
      (k : RequestKey) (w : ℕ)
      → now ≤ t
      → t - now ≤ ttl
      → get k s.seen ≡ some w
      → now ≤ w
      → (v : ℕ) × (get k (mark_if_new s src id t ttl max_entries).0.seen ≡ some v) × (now ≤ v)
  mark_if_new-stays k w late fresh g low =
      let pruned = (prune s t ttl).seen in
      let found : get k pruned ≡ some w = get-prune s t ttl k d ∙ ground (arith, g) in
      elim (Bool-cases ((src, id) == k)) [
        | inl same ↦ (
          t,
          mark_if_new-keeps k t late (get-insert (src, id) k t pruned ∙ ground arith) late,
          late,
        )
        | inr apart ↦ (
          w,
          mark_if_new-keeps k w late (get-insert (src, id) k t pruned ∙ ground arith) low,
          low,
        )
      ]

-- The table after a sequence of requests.
abbrev pub mark_all : ℕ → ℕ → List Arrival → SeenRequests → SeenRequests
mark_all ttl max_entries [] s = s
mark_all ttl max_entries (a ∷ rest) s =
    mark_all ttl max_entries rest (mark_if_new s (a.key).0 (a.key).1 a.now ttl max_entries).0

mark_all-stays :
    (ttl max_entries now c w : ℕ) (k : RequestKey) (others : List Arrival) (s : SeenRequests)
    → HasDistinctKeys s.seen
    → since now s.seen ≤ c
    → c + length others ≤ max_entries
    → All (λ (a : Arrival). (now ≤ a.now) × (a.now - now ≤ ttl)) others
    → get k s.seen ≡ some w
    → now ≤ w
    → HasDistinctKeys (mark_all ttl max_entries others s).seen
      × ((v : ℕ) × (get k (mark_all ttl max_entries others s).seen ≡ some v) × (now ≤ v))
mark_all-stays ttl max_entries now c w k [] s d few room times g low = (d, (w, g, low))
mark_all-stays ttl max_entries now c w k (a ∷ others) s d few room times g low =
    let (late, fresh) = times.0 in
    let more : c + 1 ≤ max_entries = omega (arith, room) in
    let (v, there, after) =
      mark_if_new-stays s (a.key).0 (a.key).1 a.now ttl max_entries now c d few more k w late fresh
        g low in
    mark_all-stays ttl max_entries now (c + 1) v k others
      (mark_if_new s (a.key).0 (a.key).1 a.now ttl max_entries).0
      (mark_if_new-HasDistinctKeys s (a.key).0 (a.key).1 a.now ttl max_entries d)
      (mark_if_new-since s (a.key).0 (a.key).1 a.now ttl max_entries now c d few more)
      (omega (arith, room)) times.1 there after

-- In a table with distinct keys, all marked strictly before `now`, let a request be marked at
-- `now`, and let fewer others come after it than the table has room for, each between `now` and
-- the end of the time to live. Then the request is reported as a duplicate when it comes next, at
-- any time up to the time to live after `now`, however full the table was.
pub mark_if_new-remembers :
    (s : SeenRequests) (src id now again ttl max_entries : ℕ) (others : List Arrival)
    → HasDistinctKeys s.seen
    → All (λ f. f.1 < now) s.seen
    → All (λ (a : Arrival). (now ≤ a.now) × (a.now - now ≤ ttl)) others
    → length others < max_entries
    → again - now ≤ ttl
    → (mark_if_new
        (mark_all ttl max_entries others (mark_if_new s src id now ttl max_entries).0)
        src
        id
        again
        ttl
        max_entries).1
      ≡ false
mark_if_new-remembers s src id now again ttl max_entries others d o times room fresh =
    let few : since now s.seen ≤ 0 = omega (arith, since-older now s.seen o) in
    let (own, (v, there, after)) =
      mark_all-stays ttl max_entries now 1 now (src, id) others
        (mark_if_new s src id now ttl max_entries).0
        (mark_if_new-HasDistinctKeys s src id now ttl max_entries d)
        (mark_if_new-since s src id now ttl max_entries now 0 d few (omega (arith, room)))
        (omega (arith, room)) times
        (mark_if_new-marks s src id now ttl max_entries now 0 d few (omega (arith, room))
          (omega arith))
        (omega arith) in
    (mark_if_new-duplicate_iff _ src id again ttl max_entries own).1
      (v, there, omega (arith, after, fresh))
