-- ===== src/Core/Routes/Shortest.antt =====
-- What `RouteCache::shortest` chooses, and what an insertion changes.
use dl_dsr_rs.Base.{
  All, All-get_elem?, All-map, ℕ, zero, suc, ◌≤◌, ◌≡◌, refl, sym, subst, ◌∙◌, inl, inr, Bool, true,
  List, [], ◌∷◌, ◌++◌, Option, none, some, Bool-cases, Option-cases, nat_eq, leb, get_elem?, filter,
  min_by_key, arith, ◌==◌, if◌then◌else◌,
}
use dl_dsr_rs.HashMap.Laws.{get-insert}
use dl_dsr_rs.Core.Routes.{RouteEntry, RouteCache, hop_count, routes_for, insert_route, shortest}

module _ {A : Type 0} (key : A → ℕ) where
  -- The choice between the least so far and one more at the end.
  abbrev pub keep_less : Option A → A → A
  keep_less none x = x
  keep_less (some y) x = if leb (key y) (key x) then y else x

  min_by_key-snoc :
      (xs : List A) (x : A)
      → min_by_key key (xs ++ (x ∷ [])) ≡ some (keep_less (min_by_key key xs) x)
  min_by_key-snoc [] x = refl
  min_by_key-snoc (y ∷ ys) x = ground (arith, min_by_key-snoc ys x)

  min_by_key-none : (P : A → Type 0) (xs : List A) → min_by_key key xs ≡ none → All P xs
  min_by_key-none P [] h = tt
  min_by_key-none P (y ∷ ys) h = elim (Option-cases (min_by_key key ys)) [
    | inl n ↦ absurd (ground arith)
    | inr (z, n) ↦ absurd (ground arith)
  ]

  -- No element of the list is less than the least.
  min_by_key-All : (xs : List A) (x : A) → min_by_key key xs ≡ some x → All (λ y. key x ≤ key y) xs
  min_by_key-All [] x h = tt
  min_by_key-All (y ∷ ys) x h = elim (Option-cases (min_by_key key ys)) [
    | inl n ↦
        let e : x ≡ y = ground arith in
        (subst (λ w. key x ≤ key w) e (omega arith), min_by_key-none (λ w. key x ≤ key w) ys n)
    | inr (z, n) ↦
        let less : (key x ≤ key y) × (key x ≤ key z) = ground arith in
        (
          less.0,
          All-map (λ w. key z ≤ key w) (λ w. key x ≤ key w) ys (λ w k. omega (arith, less.1, k))
              (min_by_key-All ys z n),
        )
  ]

  module _ (p : A → Bool) where
    -- The least of those that pass stands in the list, and passes.
    min_by_key_mem :
        (xs : List A) (x : A)
        → min_by_key key (filter p xs) ≡ some x
        → (i : ℕ) × (get_elem? xs i ≡ some x) × (p x ≡ true)
    min_by_key_mem [] x h = cc
    min_by_key_mem (y ∷ ys) x h = elim (Bool-cases (p y)) [
      | inr q ↦ let (i, e, t) = min_by_key_mem ys x (ground arith) in (suc i, e, t)
      | inl q ↦ elim (Option-cases (min_by_key key (filter p ys))) [
        | inl n ↦ (0, ground arith, ground arith)
        | inr (z, n) ↦ elim (Bool-cases (leb (key y) (key z))) [
          | inl l ↦ (0, ground arith, ground arith)
          | inr l ↦ let (i, e, t) = min_by_key_mem ys x (ground arith) in (suc i, e, t)
        ]
      ]
    ]

    -- Where one passes, there is a least.
    min_by_key-some :
        (xs : List A) (y : A) (j : ℕ)
        → min_by_key key (filter p xs) ≡ none
        → get_elem? xs j ≡ some y
        → p y ≡ true
        → ⊥
    min_by_key-some [] y j h e q = cc
    min_by_key-some (x ∷ xs) y zero h e q = ground arith
    min_by_key-some (x ∷ xs) y (suc j) h e q = ground (arith, min_by_key-some xs y j)

    filter-snoc :
        (xs : List A) (x : A)
        → filter p (xs ++ (x ∷ [])) ≡ (if p x then filter p xs ++ (x ∷ []) else filter p xs)
    filter-snoc [] x = refl
    filter-snoc (y ∷ ys) x = ground (arith, filter-snoc ys x)

    -- One more element at the end is chosen if it passes and is less than the least before.
    min_by_key-filter-snoc :
        (xs : List A) (x : A)
        → min_by_key key (filter p (xs ++ (x ∷ []))) ≡ (
            if p x
            then some (keep_less (min_by_key key (filter p xs)) x)
            else min_by_key key (filter p xs))
    min_by_key-filter-snoc xs x = ground (arith, filter-snoc xs x, min_by_key-snoc (filter p xs) x)

    min_by_key_least :
        (xs : List A) (x y : A) (j : ℕ)
        → min_by_key key (filter p xs) ≡ some x
        → get_elem? xs j ≡ some y
        → p y ≡ true
        → key x ≤ key y
    min_by_key_least [] x y j h e q = cc
    min_by_key_least (z ∷ zs) x y zero h e q = ground arith
    min_by_key_least (z ∷ zs) x y (suc j) h e q =
        elim (Option-cases (min_by_key key (filter p zs))) [
          | inl n ↦ absurd (min_by_key-some zs y j n e q)
          | inr (w, n) ↦ ground (arith, min_by_key_least zs w y j)
        ]

abbrev is_live : ℕ → RouteEntry → Bool
is_live now r = leb now r.expires_at_millis

shortest-routes_for :
    (c : RouteCache) (dst now : ℕ)
    → shortest c dst now ≡ min_by_key hop_count (filter (is_live now) (routes_for c dst))
unfolding shortest
shortest-routes_for c dst now = ground arith

-- A route that is served has not expired and is cached for the destination, and no route that is
-- cached for the destination and has not expired has fewer hops.
pub shortest_least :
    (c : RouteCache) (dst now : ℕ) (r : RouteEntry)
    → shortest c dst now ≡ some r
    → (now ≤ r.expires_at_millis)
      × ((i : ℕ) × (get_elem? (routes_for c dst) i ≡ some r))
      × All
          (λ (x : RouteEntry). hop_count r ≤ hop_count x)
          (filter (λ (x : RouteEntry). leb now x.expires_at_millis) (routes_for c dst))
shortest_least c dst now r h =
    let chosen = sym (shortest-routes_for c dst now) ∙ h in
    let (i, e, t) = min_by_key_mem hop_count (is_live now) (routes_for c dst) r chosen in
    (
      ground arith,
      (i, e),
      min_by_key-All hop_count (filter (is_live now) (routes_for c dst)) r chosen,
    )

-- Where a route that has not expired is cached for the destination, a route is served, and it has
-- no more hops.
pub shortest-some :
    (c : RouteCache) (dst now : ℕ) (x : RouteEntry) (j : ℕ)
    → get_elem? (routes_for c dst) j ≡ some x
    → now ≤ x.expires_at_millis
    → (r : RouteEntry) × (shortest c dst now ≡ some r) × (hop_count r ≤ hop_count x)
shortest-some c dst now x j f q = elim (Option-cases (shortest c dst now)) [
  | inl n ↦ absurd (
      min_by_key-some hop_count (is_live now) (routes_for c dst) x j
        (sym (shortest-routes_for c dst now) ∙ n) f (ground arith))
  | inr (r, n) ↦ (
    r,
    n,
    min_by_key_least hop_count (is_live now) (routes_for c dst) r x j
        (sym (shortest-routes_for c dst now) ∙ n) f (ground arith),
  )
]

-- After an insertion the route served for a destination is the one served before, unless the new
-- route is for it, has not expired and is shorter than that one or there was none: then it is the
-- new one.
pub shortest-insert_route :
    (c : RouteCache) (r : RouteEntry) (dst now : ℕ)
    → shortest (insert_route c r) dst now ≡ (
        if r.dst_node_id == dst
        then (if leb now r.expires_at_millis
            then some (keep_less hop_count (shortest c dst now) r)
            else shortest c dst now)
        else shortest c dst now)
unfolding shortest insert_route
shortest-insert_route c r dst now = ground (
  arith,
  get-insert r.dst_node_id dst (routes_for c r.dst_node_id ++ (r ∷ [])) c.routes,
  min_by_key-filter-snoc hop_count (λ x. leb now x.expires_at_millis) (routes_for c r.dst_node_id)
      r,
)

-- What holds of every route cached for a destination holds of the one that is served.
pub shortest-All :
    (P : RouteEntry → Type 0) (c : RouteCache) (dst now : ℕ) (r : RouteEntry)
    → All P (routes_for c dst)
    → shortest c dst now ≡ some r
    → P r
shortest-All P c dst now r h e =
    let (i, at, _) =
      min_by_key_mem hop_count (is_live now) (routes_for c dst) r
        (sym (shortest-routes_for c dst now) ∙ e) in
    All-get_elem? P (routes_for c dst) i r h at
