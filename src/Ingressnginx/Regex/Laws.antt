-- ===== src/Ingressnginx/Regex/Laws.antt =====
-- How often `regexFeature` rewrites a path: as often as a match of a route with a regex host points
-- to it.
use ingress2gateway.Base.{
  ℕ, zero, suc, ◌≡◌, refl, sym, ap, ◌∙◌, true, false, inl, inr, Bool-cases, Option, none, some,
  List, [], ◌∷◌, ◌++◌, String, Go, done, panic, ◌>>=◌, >>=-eq-done, nat_comparable, ◌==◌, eqb_iff,
  All, if◌then◌else◌,
}
use ingress2gateway.Base.Dict.{lookup, insert, lookup-insert}
use ingress2gateway.Api.Gateway.{HttpPathMatch}
use ingress2gateway.Ingressnginx.Annotations.{Notice}
use ingress2gateway.Ingressnginx.Regex.{
  Store, RouteInMemory, regex_value, regex_at, regex_matches, regex_rules, regex_routes,
  regex_notice, has_host_in,
}

-- The pointers that the feature follows, in its order.
abbrev pub pointers : List (Option ℕ) → List ℕ
pointers [] = []
pointers (none ∷ paths) = pointers paths
pointers (some a ∷ paths) = a ∷ pointers paths

abbrev pub pointers_of_rules : List (List (Option ℕ)) → List ℕ
pointers_of_rules [] = []
pointers_of_rules (paths ∷ rules) = pointers paths ++ pointers_of_rules rules

abbrev pub pointers_of : List String → List RouteInMemory → List ℕ
pointers_of hosts [] = []
pointers_of hosts (r ∷ routes) =
    let rest = pointers_of hosts routes in
    if has_host_in hosts r.hostnames then pointers_of_rules r.paths ++ rest else rest

-- How often an address stands among them.
abbrev pub times : ℕ → List ℕ → ℕ
times a [] = 0
times a (b ∷ bs) = let rest = times a bs in if b == a then suc rest else rest

-- A path with the value `value` after so many rewrites.
abbrev pub rewritten : ℕ → String → HttpPathMatch → HttpPathMatch
rewritten zero value path = path
rewritten (suc n) value path =
    rewritten n (regex_value value)
      (record { type = some "RegularExpression"; value = some (regex_value value) })

-- The address has a path with a value.
abbrev pub IsLoaded : Store → ℕ → Type 0
IsLoaded store a =
    (path : HttpPathMatch) × (value : String) × (lookup a store ≡ some path)
    × (path.value ≡ some value)

abbrev path_of : String → HttpPathMatch
path_of value = record { type = some "RegularExpression"; value = some (regex_value value) }

IsLoaded-insert :
    (store : Store) (b : ℕ) (value : String) (a : ℕ)
    → IsLoaded store a
    → IsLoaded (insert b (path_of value) store) a
IsLoaded-insert store b value a (path, v, e, q) = elim (Bool-cases (b == a)) [
  | inl same ↦ (
    path_of value,
    regex_value value,
    lookup-insert b a (path_of value) store ∙ rw same refl,
    refl,
  )
  | inr other ↦ (path, v, lookup-insert b a (path_of value) store ∙ rw other e, q)
]

All-IsLoaded-insert :
    (store : Store) (b : ℕ) (value : String) (addresses : List ℕ)
    → All (IsLoaded store) addresses
    → All (IsLoaded (insert b (path_of value) store)) addresses
All-IsLoaded-insert store b value [] h = tt
All-IsLoaded-insert store b value (a ∷ addresses) (p, h) =
    (IsLoaded-insert store b value a p, All-IsLoaded-insert store b value addresses h)

-- The rewrites at a list of addresses, one after the other.
abbrev write_all : List ℕ → Store → Go Store
write_all [] store = done store
write_all (a ∷ addresses) store =
    regex_at a store (lookup a store) >>= λ store'. write_all addresses store'

>>=-assoc :
    {A B C : Type 0} (m : Go A) (f : A → Go B) (g : B → Go C)
    → (m >>= f >>= g) ≡ (m >>= λ a. f a >>= g)
>>=-assoc (done a) f g = refl
>>=-assoc panic f g = refl

>>=-cong :
    {A B : Type 0} (m : Go A) (f g : A → Go B) → ((a : A) → f a ≡ g a) → (m >>= f) ≡ (m >>= g)
>>=-cong (done a) f g h = h a
>>=-cong panic f g h = refl

write_all-append :
    (xs ys : List ℕ) (store : Store)
    → write_all (xs ++ ys) store ≡ (write_all xs store >>= λ s. write_all ys s)
write_all-append [] ys store = refl
write_all-append (a ∷ xs) ys store =
    >>=-cong (regex_at a store (lookup a store)) (λ s. write_all (xs ++ ys) s)
      (λ s. write_all xs s >>= λ t. write_all ys t) (write_all-append xs ys)
    ∙ sym
        (>>=-assoc (regex_at a store (lookup a store)) (λ s. write_all xs s) (λ s. write_all ys s))

regex_matches-write_all :
    (paths : List (Option ℕ)) (store : Store)
    → regex_matches paths store ≡ write_all (pointers paths) store
unfolding regex_matches
regex_matches-write_all [] store = refl
regex_matches-write_all (none ∷ paths) store = regex_matches-write_all paths store
regex_matches-write_all (some a ∷ paths) store =
    >>=-cong (regex_at a store (lookup a store)) (λ s. regex_matches paths s)
      (λ s. write_all (pointers paths) s) (regex_matches-write_all paths)

regex_rules-write_all :
    (rules : List (List (Option ℕ))) (store : Store)
    → regex_rules rules store ≡ write_all (pointers_of_rules rules) store
unfolding regex_rules
regex_rules-write_all [] store = refl
regex_rules-write_all (paths ∷ rules) store =
    ap (λ m. m >>= λ s. regex_rules rules s) (regex_matches-write_all paths store)
    ∙ >>=-cong (write_all (pointers paths) store) (λ s. regex_rules rules s)
        (λ s. write_all (pointers_of_rules rules) s) (regex_rules-write_all rules)
    ∙ sym (write_all-append (pointers paths) (pointers_of_rules rules) store)

-- What the store has after the rewrites.
abbrev pub IsRewritten : List ℕ → Store → Store → Type 0
IsRewritten addresses store store' =
    (a : ℕ) (path : HttpPathMatch) (value : String)
    → lookup a store ≡ some path
    → path.value ≡ some value
    → lookup a store' ≡ some (rewritten (times a addresses) value path)

write_all-IsRewritten :
    (addresses : List ℕ) (store : Store)
    → All (IsLoaded store) addresses
    → (store' : Store) × (write_all addresses store ≡ done store')
      × IsRewritten addresses store store'
write_all-IsRewritten [] store h = (store, refl, λ a path value e q. e)
write_all-IsRewritten (b ∷ addresses) store ((held, v, e, q), h) =
    let (store', written, after) =
      write_all-IsRewritten addresses (insert b (path_of v) store)
        (All-IsLoaded-insert store b v addresses h) in
    (
      store',
      rw (e, q) written,
      λ a path value f p. elim (Bool-cases (b == a)) [
        | inl same ↦
            let b_is_a : b ≡ a = (eqb_iff b a).0 same in
            let values : some v ≡ some value = cc in
            rw same (
              after a (path_of v) (regex_value v)
                (lookup-insert b a (path_of v) store ∙ rw same refl) refl
              ∙ ap (λ (o : Option String). rewritten_some (times a addresses) o) values)
        | inr other ↦
            rw other (after a path value (lookup-insert b a (path_of v) store ∙ rw other f) p)
      ],
    )
  where
    rewritten_some : ℕ → Option String → Option HttpPathMatch
    rewritten_some n none = none
    rewritten_some n (some value) = some (rewritten n (regex_value value) (path_of value))

regex_routes-write_all :
    (hosts : List String) (routes : List RouteInMemory) (store store' : Store)
    → write_all (pointers_of hosts routes) store ≡ done store'
    → (notices : List Notice) × (regex_routes hosts routes store ≡ done (store', notices))
unfolding regex_routes
regex_routes-write_all hosts [] store store' h =
    ([], ap (λ (m : Go Store). m >>= λ s. done (s, [])) h)
regex_routes-write_all hosts (r ∷ routes) store store' h =
    elim (Bool-cases (has_host_in hosts r.hostnames)) [
      | inl regex ↦
          let (s, first, second) =
            >>=-eq-done (write_all (pointers_of_rules r.paths) store)
              (λ s. write_all (pointers_of hosts routes) s)
              (sym (write_all-append (pointers_of_rules r.paths) (pointers_of hosts routes) store)
                ∙ ap (λ addresses. write_all addresses store) (followed regex)
                ∙ h) in
          let (notices, rest) = regex_routes-write_all hosts routes s store' second in
          (
            regex_notice ∷ notices,
            rw (regex, regex_rules-write_all r.paths store, first, rest) refl,
          )
      | inr plain ↦
          let (notices, rest) =
            regex_routes-write_all hosts routes store store'
              (ap (λ addresses. write_all addresses store) (skipped plain) ∙ h) in
          (notices, rw plain rest)
    ]
  where
    followed :
        has_host_in hosts r.hostnames ≡ true
        → pointers_of_rules r.paths ++ pointers_of hosts routes ≡ pointers_of hosts (r ∷ routes)
    followed e = rw e refl

    skipped :
        has_host_in hosts r.hostnames ≡ false
        → pointers_of hosts routes ≡ pointers_of hosts (r ∷ routes)
    skipped e = rw e refl

-- If every pointer that the feature follows has a path with a value, then the feature returns, and
-- it rewrites the path at an address as often as a match of a route with a regex host points to it:
-- `p` becomes `(?i)p.*`, and where two matches share the path `(?i)(?i)p.*.*`.
pub regex_routes-IsRewritten :
    (hosts : List String) (routes : List RouteInMemory) (store : Store)
    → All (IsLoaded store) (pointers_of hosts routes)
    → (store' : Store) × (notices : List Notice) × (regex_routes hosts routes store
        ≡ done (store', notices))
      × IsRewritten (pointers_of hosts routes) store store'
regex_routes-IsRewritten hosts routes store h =
    let (store', written, after) = write_all-IsRewritten (pointers_of hosts routes) store h in
    let (notices, e) = regex_routes-write_all hosts routes store store' written in
    (store', notices, e, after)
