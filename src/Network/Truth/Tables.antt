-- ===== src/Network/Truth/Tables.antt =====
-- The tables of a node that knows the truth, as they grow and as they are read.
use dl_dsr_rs.Base.{
  ℕ, ◌≡◌, sym, subst, inl, inr, Option-cases, [], ◌∷◌, none, some, All, All-append, nat_eq,
}
use dl_dsr_rs.HashMap.{get}
use dl_dsr_rs.HashMap.Everywhere.{get-All, insert-All}
use dl_dsr_rs.Core.Socket.{SocketAddr}
use dl_dsr_rs.Core.Tables.{NeighborTable, free_label, assign_or_reuse_label}
use dl_dsr_rs.Core.Routes.{RouteEntry, RouteCache, routes_for, insert_route, shortest}
use dl_dsr_rs.Core.Routes.Shortest.{shortest-All}
use dl_dsr_rs.Node.State.{ProtocolState}
use dl_dsr_rs.Node.Frame.{Frame}
use dl_dsr_rs.Network.Truth.{Leads, IsTrueRoute, IsAt, AreRoutes, Knows}

module _ (leads : Leads) (addr : ℕ → SocketAddr) where
  -- What a node knows depends on its tables alone.
  pub same-Knows :
      (s t : ProtocolState)
      → Frame s t
      → t.routes ≡ s.routes
      → Knows leads addr s
      → Knows leads addr t
  same-Knows s t f r h = record {
    at = rw f.neighbors h.at;
    given = rw (f.config, f.labels) h.given;
    routes = rw (f.config, r) h.routes;
  }

  pub assign-IsAt :
      (t : NeighborTable) (n : ℕ) (a : SocketAddr) (now : ℕ)
      → a ≡ addr n
      → All (IsAt leads addr) t.entries
      → All (IsAt leads addr) (assign_or_reuse_label t n a now).0.entries
  unfolding assign_or_reuse_label
  assign-IsAt t n a now e h = elim (Option-cases (get n t.entries)) [
    | inr (old, g) ↦ rw (g, assign_or_reuse_label) (insert-All (IsAt leads addr) n _ t.entries e h)
    | inl g ↦ elim (Option-cases (free_label t)) [
      | inl f ↦ rw (g, f, assign_or_reuse_label) h
      | inr (l, f) ↦
          rw (g, f, assign_or_reuse_label) (insert-All (IsAt leads addr) n _ t.entries e h)
    ]
  ]

  -- The routes cached for a destination.
  routes_for-AreRoutes :
      (c : RouteCache) (n dst : ℕ)
      → All (AreRoutes leads addr n) c.routes
      → AreRoutes leads addr n (dst, routes_for c dst)
  routes_for-AreRoutes c n dst h = elim (Option-cases (get dst c.routes)) [
    | inl g ↦
        subst (λ o. AreRoutes leads addr n (dst, elim o [ none ↦ [] | some rs ↦ rs ])) (sym g) tt
    | inr (rs, g) ↦
        subst (λ o. AreRoutes leads addr n (dst, elim o [ none ↦ [] | some rs ↦ rs ])) (sym g)
          (get-All (AreRoutes leads addr n) dst rs c.routes h g)
  ]

  -- A new route joins those that are cached.
  pub insert_route-AreRoutes :
      (c : RouteCache) (r : RouteEntry) (n : ℕ)
      → All (AreRoutes leads addr n) c.routes
      → IsTrueRoute leads n r.dst_node_id r.dsr_path r.dldsr_label_path
      → All (AreRoutes leads addr n) (insert_route c r).routes
  unfolding insert_route
  insert_route-AreRoutes c r n h t =
      insert-All (AreRoutes leads addr n) r.dst_node_id _ c.routes
        (All-append
          (λ (x : RouteEntry). IsTrueRoute leads n r.dst_node_id x.dsr_path x.dldsr_label_path)
          (routes_for c r.dst_node_id) (r ∷ []) (routes_for-AreRoutes c n r.dst_node_id h) (t, tt))
        h

  -- A route that is served is one of those.
  pub shortest-IsTrueRoute :
      (s : ProtocolState) (dst now : ℕ) (r : RouteEntry)
      → Knows leads addr s
      → shortest s.routes dst now ≡ some r
      → IsTrueRoute leads s.config.node_id dst r.dsr_path r.dldsr_label_path
  shortest-IsTrueRoute s dst now r h =
      shortest-All (λ x. IsTrueRoute leads s.config.node_id dst x.dsr_path x.dldsr_label_path)
        s.routes dst now r (routes_for-AreRoutes s.routes s.config.node_id dst h.routes)
