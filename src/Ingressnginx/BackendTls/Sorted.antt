-- ===== src/Ingressnginx/BackendTls/Sorted.antt =====
-- The sort of the route keys in `backendTLSFeature` of
-- pkg/i2gw/providers/ingressnginx/backend_tls.go: an exchange sort by namespace and name.
use Prim.Native.Nat.{Ordering}
use Prim.Native.String
use ingress2gateway.Base.{
  ℕ, zero, suc, Bool, true, false, ◌&&◌, ◌||◌, List, [], ◌∷◌, length, String, string_comparable,
  ◌==◌, if◌then◌else◌,
}
use ingress2gateway.Api.Ingress.{NamespacedName}

-- `s > t`: the order of the bytes is that of the code points.
abbrev pub is_after : String → String → Bool
is_after s t = elim (String.compare s t) [ Ordering.gt ↦ true | _ ↦ false ]

abbrev pub follows : NamespacedName → NamespacedName → Bool
follows a b =
    is_after a.namespace b.namespace || ((a.namespace == b.namespace) && is_after a.name b.name)

-- The inner loop, for the element `x` in front: the element that ends up there, and the others.
unfoldable pub exchange :
    NamespacedName → List NamespacedName → NamespacedName × List NamespacedName
exchange x [] = (x, [])
exchange x (y ∷ ys) =
    let front = if follows x y then y else x in
    let back = if follows x y then x else y in
    let rest = exchange front ys in (rest.0, back ∷ rest.1)

-- The outer loop, on the number of elements as fuel.
unfoldable pub exchange_all : ℕ → List NamespacedName → List NamespacedName
unfolding exchange
exchange_all n [] = []
exchange_all zero (x ∷ xs) = x ∷ xs
exchange_all (suc n) (x ∷ xs) = let placed = exchange x xs in placed.0 ∷ exchange_all n placed.1

unfoldable pub sort_keys : List NamespacedName → List NamespacedName
unfolding exchange_all
sort_keys keys = exchange_all (length keys) keys
