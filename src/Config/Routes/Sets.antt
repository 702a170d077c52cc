-- ===== src/Config/Routes/Sets.antt =====
-- The lists of routes as sets.
use nostr_vpn.Prelude.{
  ◌≡◌, refl, Bool, true, false, ◌&&◌, ◌||◌, not, List, [], ◌∷◌, arith, any, is_some_and,
}
use nostr_vpn.Prelude.Text.{Text, str_eq, str_eq_iff, codes}
use nostr_vpn.Collections.HashSet.{
  is_unique, contains-append, contains-collect, append_unique, contains, add, contains-add, collect,
  HashSet,
}
use nostr_vpn.Net.{IpAddr}
use nostr_vpn.Config.Routes.{
  push_unseen, normalize_advertised_route, normalize_advertised_routes, normalized_each,
  effective_advertised_routes, exit_node_default_routes, is_exit_node_route,
}

contains-push_unseen :
    (rs : List Text) (seen : HashSet) (k : Text)
    → contains (push_unseen rs seen) k ≡ (contains rs k && not (contains seen k))
unfolding push_unseen contains
contains-push_unseen [] seen k = refl
contains-push_unseen (r ∷ rs) seen k = ground (
  arith,
  contains-push_unseen rs seen k,
  contains-push_unseen rs (add seen r) k,
  contains-add seen r k,
  str_eq_iff r k,
)

push_unseen_unique : (rs : List Text) (seen : HashSet) → is_unique (push_unseen rs seen) ≡ true
unfolding push_unseen is_unique
push_unseen_unique [] seen = refl
push_unseen_unique (r ∷ rs) seen = ground (
  arith,
  push_unseen_unique rs seen,
  push_unseen_unique rs (add seen r),
  contains-push_unseen rs (add seen r) r,
  contains-add seen r r,
  str_eq_iff r r,
)

contains-exit_node_default_routes :
    (k : Text) → contains exit_node_default_routes k ≡ is_exit_node_route k
unfolding exit_node_default_routes is_exit_node_route contains
contains-exit_node_default_routes k = ground (
  arith,
  str_eq_iff (codes "0.0.0.0/0") k,
  str_eq_iff (codes "::/0") k,
  str_eq_iff k (codes "0.0.0.0/0"),
  str_eq_iff k (codes "::/0"),
)

module _ (display : IpAddr → Text) where
  -- `route` is what one of the texts is normalised to.
  abbrev pub normalizes_to : Text → Text → Bool
  normalizes_to route r = is_some_and (normalize_advertised_route display r) (λ n. str_eq n route)

  contains-normalized_each :
      (rs : List Text) (k : Text)
      → contains (normalized_each display rs) k ≡ any (normalizes_to k) rs
  unfolding normalized_each contains any
  contains-normalized_each [] k = refl
  contains-normalized_each (r ∷ rs) k = ground (arith, contains-normalized_each rs k)

  pub normalize_advertised_routes_lem :
      (routes : List Text)
      → let normalized = normalize_advertised_routes display routes in
        (is_unique normalized ≡ true)
        × ((k : Text) → contains normalized k ≡ any (normalizes_to k) routes)
  unfolding normalize_advertised_routes contains
  normalize_advertised_routes_lem routes = (
    push_unseen_unique (normalized_each display routes) [],
    λ k. ground (
      arith,
      contains-push_unseen (normalized_each display routes) [] k,
      contains-normalized_each routes k,
    ),
  )

  -- The effective routes, each once, are what the advertised texts normalise to and, for a node
  -- that advertises itself as an exit node, the default routes.
  pub effective_advertised_routes_lem :
      (routes : List Text) (advertise_exit_node : Bool)
      → let effective = effective_advertised_routes display routes advertise_exit_node in
        (is_unique effective ≡ true)
        × ((k : Text)
            → contains effective k
              ≡ (any (normalizes_to k) routes || (advertise_exit_node && is_exit_node_route k)))
  unfolding effective_advertised_routes
  effective_advertised_routes_lem routes false =
      let (u, c) = normalize_advertised_routes_lem routes in (u, λ k. ground (arith, c k))
  effective_advertised_routes_lem routes true =
      let (u, c) = normalize_advertised_routes_lem routes in
      let normalized = normalize_advertised_routes display routes in
      let exits = push_unseen exit_node_default_routes (collect normalized) in
      let e : (k : Text)
          → contains exits k ≡ (is_exit_node_route k && not (contains normalized k)) =
        λ k. ground (
          arith,
          contains-push_unseen exit_node_default_routes (collect normalized) k,
          contains-collect normalized k,
          contains-exit_node_default_routes k,
        ) in
      (
        append_unique normalized exits u (push_unseen_unique exit_node_default_routes _)
            (λ k h. ground (arith, e k)),
        λ k. ground (arith, contains-append normalized exits k, e k, c k),
      )
