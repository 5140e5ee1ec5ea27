-- ===== src/Common/Paths/Grouping.antt =====
-- What the grouping of paths by match key computes: the paths of a key are those of all rules
-- with that key, in order, and the keys stand in the order of their first occurrence.
use ingress2gateway.Base.{
  ℕ, ◌+◌, ◌≡◌, refl, sym, ap, ◌∙◌, ◌≢◌, Bool, true, false, not, Option, none, some, List, [], ◌∷◌,
  ◌++◌, map, arith, String, ◌==◌, string_comparable, keep, keep-append, contains, contains-append,
  Bool-cases, Option-cases, inl, inr,
}
use mathlib.Core.List.{append_assoc, append-nil}
use text.Mathlib.TextEquality.{eq_iff}
use ingress2gateway.Base.Dict.{lookup, lookup_or, lookup-insert, lookup_or-insert}
use ingress2gateway.Base.Firsts.{
  firsts_by, contains-firsts_by, keep-firsts_by_seen, keep-firsts_by_new,
}
use ingress2gateway.Api.Ingress.{Ingress, HttpIngressPath}
use ingress2gateway.Common.Paths.{
  RuleSource, IngressPath, OrderedPaths, get_path_match_key, add_path, add_paths, add_rule,
  group_from, group_ingress_paths_by_match_key,
}

-- The paths of all rules, in order, each with its place.
abbrev pub numbered_paths : ℕ → ℕ → Ingress → List HttpIngressPath → List IngressPath
numbered_paths i j ingress [] = []
numbered_paths i j ingress (p ∷ ps) =
    record { rule_idx = i; path_idx = j; rule_type = "http"; path = p; source_ingress = ingress }
    ∷ numbered_paths i (j + 1) ingress ps

abbrev rule_paths : ℕ → RuleSource → List IngressPath
rule_paths i ir = elim ir.rule.http [ none ↦ [] | some paths ↦ numbered_paths i 0 ir.ingress paths ]

abbrev pub all_paths : ℕ → List RuleSource → List IngressPath
all_paths i [] = []
all_paths i (ir ∷ rules) = rule_paths i ir ++ all_paths (i + 1) rules

-- The two loops as one loop over these paths.
abbrev add_all : OrderedPaths → List IngressPath → OrderedPaths
add_all acc [] = acc
add_all acc (ip ∷ ips) = add_all (add_path acc ip) ips

add_all-append :
    (acc : OrderedPaths) (xs ys : List IngressPath)
    → add_all acc (xs ++ ys) ≡ add_all (add_all acc xs) ys
add_all-append acc [] ys = refl
add_all-append acc (x ∷ xs) ys = add_all-append (add_path acc x) xs ys

add_paths-eq-add_all :
    (acc : OrderedPaths) (i j : ℕ) (ingress : Ingress) (ps : List HttpIngressPath)
    → add_paths acc i j ingress ps ≡ add_all acc (numbered_paths i j ingress ps)
unfolding add_paths
add_paths-eq-add_all acc i j ingress [] = refl
add_paths-eq-add_all acc i j ingress (p ∷ ps) =
    add_paths-eq-add_all
      (add_path acc (record {
        rule_idx = i;
        path_idx = j;
        rule_type = "http";
        path = p;
        source_ingress = ingress;
      }))
      i (j + 1) ingress ps

add_rule-eq-add_all :
    (acc : OrderedPaths) (i : ℕ) (ir : RuleSource)
    → add_rule acc i ir ≡ add_all acc (rule_paths i ir)
unfolding add_rule
add_rule-eq-add_all acc i ir = elim (Option-cases ir.rule.http) [
  | inl e ↦ rw e
  | inr (ps, e) ↦ rw e (add_paths-eq-add_all acc i 0 ir.ingress ps)
]

group_from-eq-add_all :
    (acc : OrderedPaths) (i : ℕ) (rules : List RuleSource)
    → group_from acc i rules ≡ add_all acc (all_paths i rules)
unfolding group_from
group_from-eq-add_all acc i [] = refl
group_from-eq-add_all acc i (ir ∷ rules) =
    group_from-eq-add_all (add_rule acc i ir) (i + 1) rules
    ∙ ap (λ a. add_all a (all_paths (i + 1) rules)) (add_rule-eq-add_all acc i ir)
    ∙ sym (add_all-append acc (rule_paths i ir) (all_paths (i + 1) rules))

-- The entries of a key after one path, and after a list of paths.
add_path-entries :
    (acc : OrderedPaths) (ip : IngressPath) (k : String)
    → lookup_or [] k (add_path acc ip).entries
      ≡ lookup_or [] k acc.entries ++ keep (λ p. get_path_match_key p == k) (ip ∷ [])
unfolding add_path
add_path-entries acc ip k = ground (
  arith,
  lookup_or-insert [] (get_path_match_key ip) k
      (lookup_or [] (get_path_match_key ip) acc.entries ++ ip ∷ []) acc.entries,
  eq_iff (get_path_match_key ip) k,
  append-nil (lookup_or [] k acc.entries),
)

add_all-entries :
    (acc : OrderedPaths) (ips : List IngressPath) (k : String)
    → lookup_or [] k (add_all acc ips).entries
      ≡ lookup_or [] k acc.entries ++ keep (λ p. get_path_match_key p == k) ips
add_all-entries acc [] k = sym (append-nil _)
add_all-entries acc (ip ∷ ips) k =
    add_all-entries (add_path acc ip) ips k
    ∙ ap (λ l. l ++ keep (λ p. get_path_match_key p == k) ips) (add_path-entries acc ip k)
    ∙ append_assoc (lookup_or [] k acc.entries) (keep (λ p. get_path_match_key p == k) (ip ∷ []))
        (keep (λ p. get_path_match_key p == k) ips)
    ∙ ap (λ l. lookup_or [] k acc.entries ++ l)
        (sym (keep-append (λ p. get_path_match_key p == k) (ip ∷ []) ips))

-- The paths that stand under a key are the paths of all rules with that key, in order.
pub group_ingress_paths_entries :
    (rules : List RuleSource) (k : String)
    → lookup_or [] k (group_ingress_paths_by_match_key rules).entries
      ≡ keep (λ p. get_path_match_key p == k) (all_paths 0 rules)
unfolding group_ingress_paths_by_match_key
group_ingress_paths_entries rules k =
    ap (λ (a : OrderedPaths). lookup_or [] k a.entries)
      (group_from-eq-add_all (record { keys = []; entries = [] }) 0 rules)
    ∙ add_all-entries (record { keys = []; entries = [] }) (all_paths 0 rules) k

abbrev is_some {ℓ} : {A : Type ℓ} → Option A → Bool
is_some none = false
is_some (some _) = true

-- The list of keys has exactly the keys of the map.
abbrev IsTracked : OrderedPaths → Type 0
IsTracked acc = (k : String) → contains k acc.keys ≡ is_some (lookup k acc.entries)

add_path-IsTracked :
    (acc : OrderedPaths) (ip : IngressPath) → IsTracked acc → IsTracked (add_path acc ip)
unfolding add_path
add_path-IsTracked acc ip h k = ground (
  arith,
  h k,
  h (get_path_match_key ip),
  lookup-insert (get_path_match_key ip) k
      (lookup_or [] (get_path_match_key ip) acc.entries ++ ip ∷ []) acc.entries,
  eq_iff (get_path_match_key ip) k,
  eq_iff k (get_path_match_key ip),
  contains-append k acc.keys (get_path_match_key ip ∷ []),
)

abbrev pub keys_of : List IngressPath → List String
keys_of ips = map get_path_match_key ips

add_path-keys_seen :
    (acc : OrderedPaths) (ip : IngressPath)
    → IsTracked acc
    → contains (get_path_match_key ip) acc.keys ≡ true
    → (add_path acc ip).keys ≡ acc.keys
unfolding add_path
add_path-keys_seen acc ip h s = ground (arith, h (get_path_match_key ip))

add_path-keys_new :
    (acc : OrderedPaths) (ip : IngressPath)
    → IsTracked acc
    → contains (get_path_match_key ip) acc.keys ≡ false
    → (add_path acc ip).keys ≡ acc.keys ++ get_path_match_key ip ∷ []
unfolding add_path
add_path-keys_new acc ip h s = ground (arith, h (get_path_match_key ip))

add_all-keys :
    (acc : OrderedPaths) (ips : List IngressPath)
    → IsTracked acc
    → (add_all acc ips).keys
      ≡ acc.keys ++ keep (λ k. not (contains k acc.keys)) (firsts_by (λ k. k) (keys_of ips))
add_all-keys acc [] h = sym (append-nil _)
add_all-keys acc (ip ∷ ips) h = elim (Bool-cases (contains (get_path_match_key ip) acc.keys)) [
  | inl seen ↦
      add_all-keys (add_path acc ip) ips (add_path-IsTracked acc ip h)
      ∙ ap after (add_path-keys_seen acc ip h seen)
      ∙ ap (λ l. acc.keys ++ l)
          (sym (keep-firsts_by_seen (λ k. k) acc.keys (get_path_match_key ip) (keys_of ips) seen))
  | inr new ↦
      add_all-keys (add_path acc ip) ips (add_path-IsTracked acc ip h)
      ∙ ap after (add_path-keys_new acc ip h new)
      ∙ append_assoc acc.keys (get_path_match_key ip ∷ []) _
      ∙ ap (λ l. acc.keys ++ l)
          (sym (keep-firsts_by_new (λ k. k) acc.keys (get_path_match_key ip) (keys_of ips) new))
]
  where
    after : List String → List String
    after ks = ks ++ keep (λ k. not (contains k ks)) (firsts_by (λ k. k) (keys_of ips))

-- The keys are those of all paths, each once, in the order of their first occurrence.
pub group_ingress_paths_keys :
    (rules : List RuleSource)
    → (group_ingress_paths_by_match_key rules).keys
      ≡ firsts_by (λ k. k) (keys_of (all_paths 0 rules))
unfolding group_ingress_paths_by_match_key
group_ingress_paths_keys rules =
    ap (λ (a : OrderedPaths). a.keys)
      (group_from-eq-add_all (record { keys = []; entries = [] }) 0 rules)
    ∙ add_all-keys (record { keys = []; entries = [] }) (all_paths 0 rules) (λ k. refl)
    ∙ keep_all (firsts_by (λ k. k) (keys_of (all_paths 0 rules)))
  where
    keep_all : (ks : List String) → keep (λ k. true) ks ≡ ks
    keep_all [] = refl
    keep_all (k ∷ ks) = ap (λ r. k ∷ r) (keep_all ks)

keep-ne-nil :
    (k : String) (ips : List IngressPath)
    → contains k (keys_of ips) ≡ true
    → keep (λ p. get_path_match_key p == k) ips ≢ []
keep-ne-nil k [] h = cc
keep-ne-nil k (ip ∷ ips) h =
    ground
      (arith, keep-ne-nil k ips, eq_iff (get_path_match_key ip) k, eq_iff k (get_path_match_key ip))

map_self : (ks : List String) → map (λ k. k) ks ≡ ks
map_self [] = refl
map_self (k ∷ ks) = ap (λ r. k ∷ r) (map_self ks)

same_members : (k : String) (ks : List String) → contains k (firsts_by (λ j. j) ks) ≡ contains k ks
same_members k ks =
    ap (contains k) (sym (map_self (firsts_by (λ j. j) ks)))
    ∙ contains-firsts_by (λ j. j) k ks
    ∙ ap (contains k) (map_self ks)

-- Every listed key has a path, so that `paths[0]` never fails.
pub group_ingress_paths_nonempty :
    (rules : List RuleSource) (k : String)
    → contains k (group_ingress_paths_by_match_key rules).keys ≡ true
    → lookup_or [] k (group_ingress_paths_by_match_key rules).entries ≢ []
group_ingress_paths_nonempty rules k h = rw (group_ingress_paths_entries rules k) (
    keep-ne-nil k (all_paths 0 rules) (sym (same_members k (keys_of (all_paths 0 rules))) ∙ listed))
  where
    listed : contains k (firsts_by (λ k. k) (keys_of (all_paths 0 rules))) ≡ true
    listed = rw (group_ingress_paths_keys rules) at h
