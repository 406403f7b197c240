-- ===== src/Core/Routes.antt =====
-- The route cache (crates/dldsr-core/src/route.rs).
pub mod Shortest
use dl_dsr_rs.Base.{
  ℕ, nat_eq, List, [], ◌∷◌, ◌++◌, Option, none, some, length, filter, min_by_key, leb,
}
use dl_dsr_rs.HashMap.{HashMap, get, insert}

pub record RouteEntry : Type 0 where
  pub dst_node_id : ℕ
  pub dsr_path : List ℕ
  pub dldsr_label_path : List ℕ
  pub expires_at_millis : ℕ

unfoldable pub new_dsr : ℕ → List ℕ → ℕ → RouteEntry
new_dsr dst_node_id dsr_path expires_at_millis = record {
  dst_node_id = dst_node_id;
  dsr_path = dsr_path;
  dldsr_label_path = [];
  expires_at_millis = expires_at_millis;
}

unfoldable pub new_dldsr : ℕ → List ℕ → ℕ → RouteEntry
new_dldsr dst_node_id dldsr_label_path expires_at_millis = record {
  dst_node_id = dst_node_id;
  dsr_path = [];
  dldsr_label_path = dldsr_label_path;
  expires_at_millis = expires_at_millis;
}

-- `RouteEntry::hop_count`
unfoldable pub hop_count : RouteEntry → ℕ
hop_count r = elim r.dsr_path [ [] ↦ length r.dldsr_label_path | x ∷ xs ↦ length r.dsr_path ]

pub record RouteCache : Type 0 where
  pub routes : HashMap ℕ (List RouteEntry)

abbrev pub empty_routes : RouteCache
empty_routes = record { routes = [] }

-- The routes cached for a destination; `entry().or_default()` when it inserts.
abbrev pub routes_for : RouteCache → ℕ → List RouteEntry
routes_for c dst = elim (get dst c.routes) [ none ↦ [] | some rs ↦ rs ]

-- `RouteCache::insert`
unfoldable pub insert_route : RouteCache → RouteEntry → RouteCache
insert_route c route = record {
  routes = insert route.dst_node_id (routes_for c route.dst_node_id ++ (route ∷ [])) c.routes;
}

-- `RouteCache::shortest`
unfoldable pub shortest : RouteCache → ℕ → ℕ → Option RouteEntry
shortest c dst_node_id now = elim (get dst_node_id c.routes) [
  | none ↦ none
  | some routes ↦ min_by_key hop_count (filter (λ r. leb now r.expires_at_millis) routes)
]
