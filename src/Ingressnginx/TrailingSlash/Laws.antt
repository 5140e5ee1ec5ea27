-- ===== src/Ingressnginx/TrailingSlash/Laws.antt =====
-- Which redirects `buildTrailingSlashRedirectRules` makes.
use ingress2gateway.Base.{
  Bool, true, false, ◌&&◌, ◌||◌, not, ◌≡◌, refl, sym, ap, ◌∙◌, inl, inr, Bool-cases, Option, none,
  some, List, [], ◌∷◌, map, String, string_comparable, ◌==◌, ==_refl, contains, distinct, arith,
  if◌then◌else◌, done,
}
use ingress2gateway.Base.Text.{◌+++◌}
use ingress2gateway.Base.Strings.{strip_prefix, starts_with, ends_with, trim_suffix}
use ingress2gateway.Api.Gateway.{HttpRouteRule}
use ingress2gateway.Ingressnginx.TrailingSlash.Segments.{and_elim, cons-eq_empty}
use ingress2gateway.Ingressnginx.TrailingSlash.Slashes.{append-trim_suffix, slashed_eq}
use ingress2gateway.Ingressnginx.TrailingSlash.{
  is_literal, paths_of, already_matched, existing_prefixes, covers_rest, path_prefix_covers,
  path_prefix_covered_by_any, trailing_slash_rule, emits, redirect_rules,
  build_trailing_slash_redirect_rules,
}

-- `pathPrefixCovers` for a prefix that is not empty, and its loop over such prefixes.
abbrev pub is_covered_by : String → String → Bool
is_covered_by prefix path = elim (strip_prefix prefix path) [
  | none ↦ false
  | some rest ↦ (rest == "") || (ends_with b'/' prefix || starts_with b'/' rest)
]

abbrev pub is_covered : List String → String → Bool
is_covered [] path = false
is_covered (prefix ∷ prefixes) path = is_covered_by prefix path || is_covered prefixes path

path_prefix_covers-is_covered_by :
    (prefix path : String)
    → ("" == prefix) ≡ false
    → path_prefix_covers prefix path ≡ done (is_covered_by prefix path)
unfolding path_prefix_covers
path_prefix_covers-is_covered_by prefix path h = by_rest prefix (strip_prefix prefix path) h
  where
    by_rest :
        (p : String) (o : Option String)
        → ("" == p) ≡ false
        → elim o [ none ↦ done false | some rest ↦ covers_rest p rest ]
          ≡ done (elim o [
            | none ↦ false
            | some rest ↦ (rest == "") || (ends_with b'/' p || starts_with b'/' rest)
          ])
    by_rest p none h = refl
    by_rest p (some String.[]) h = refl
    by_rest String.[] (some (String.◌∷◌ c rest)) h = cc
    by_rest (String.◌∷◌ d p) (some (String.◌∷◌ c rest)) h = rw (cons-eq_empty c rest) refl

path_prefix_covered_by_any-is_covered :
    (prefixes : List String) (path : String)
    → contains "" prefixes ≡ false
    → path_prefix_covered_by_any prefixes path ≡ done (is_covered prefixes path)
unfolding path_prefix_covered_by_any
path_prefix_covered_by_any-is_covered [] path h = refl
path_prefix_covered_by_any-is_covered (prefix ∷ prefixes) path h =
    let (here, there) = not_either ("" == prefix) (contains "" prefixes) h in
    rw
      (
        path_prefix_covers-is_covered_by prefix path here,
        path_prefix_covered_by_any-is_covered prefixes path there,
      )
      (either_done (is_covered_by prefix path) (is_covered prefixes path))
  where
    not_either : (a b : Bool) → (a || b) ≡ false → (a ≡ false) × (b ≡ false)
    not_either a b e = ground arith

    either_done : (a b : Bool) → (if a then done true else done b) ≡ done (a || b)
    either_done true b = refl
    either_done false b = refl

-- What a source needs besides a path with a slash.
abbrev pub passes : List String → List String → String → Bool
passes matched prefixes s =
    not (s == "") && (not (contains s matched) && not (is_covered prefixes s))

abbrev emitted : List String → List String → List String → String → String → Bool
emitted matched prefixes added type target =
    let source = trim_suffix b'/' target in
    is_literal type
    && (ends_with b'/' target && (passes matched prefixes source && not (contains source added)))

emit_of_tests :
    (l t e z m c a : Bool)
    → (t ≡ true → z ≡ true)
    → (if l && (not t && (e && (not z && not m))) then done (not c && not a) else done false)
      ≡ done (l && (e && ((not z && (not m && not c)) && not a)))
emit_of_tests l t e z m c a h = ground arith

root_source : (target : String) → (target == "/") ≡ true → (trim_suffix b'/' target == "") ≡ true
root_source target h =
    let e = (string_comparable.same_iff target "/").0 h in
    (string_comparable.same_iff (trim_suffix b'/' target) "").1 (ap (trim_suffix b'/') e)

emits-emitted :
    (matched prefixes added : List String) (type target : String)
    → contains "" prefixes ≡ false
    → emits matched prefixes added type target ≡ done (emitted matched prefixes added type target)
emits-emitted matched prefixes added type target h =
    let source = trim_suffix b'/' target in
    rw (path_prefix_covered_by_any-is_covered prefixes source h) (
      emit_of_tests (is_literal type) (target == "/") (ends_with b'/' target) (source == "")
        (contains source matched) (is_covered prefixes source) (contains source added)
        (root_source target))

-- The sources of the redirects, for the paths that are left and the sources so far.
abbrev IsSources :
    List String → List String → List String → List (String × String) → List String → Type 0
IsSources matched prefixes added paths sources =
    (distinct sources ≡ true)
    × ((s : String)
        → contains s sources ≡ (
            contains (s +++ "/") (already_matched paths)
            && (passes matched prefixes s && not (contains s added))))

abbrev pub rule_for : String → HttpRouteRule
rule_for s = trailing_slash_rule s (s +++ "/")

contains-already_matched :
    (t type target : String) (paths : List (String × String))
    → contains t (already_matched ((type, target) ∷ paths))
      ≡ ((is_literal type && (t == target)) || contains t (already_matched paths))
contains-already_matched t type target paths = ground arith

step_emitting :
    (l e s k p q a b : Bool)
    → (s ≡ true → q ≡ p)
    → (s ≡ true → b ≡ a)
    → (l && (e && (p && not a))) ≡ true
    → (s || (k && (q && not (s || b)))) ≡ (((l && (e && s)) || k) && (q && not b))
step_emitting l e s k p q a b f g h = ground arith

step_passing :
    (l e s k p q a b : Bool)
    → (s ≡ true → q ≡ p)
    → (s ≡ true → b ≡ a)
    → (l && (e && (p && not a))) ≡ false
    → (k && (q && not b)) ≡ (((l && (e && s)) || k) && (q && not b))
step_passing l e s k p q a b f g h = ground arith

absent_first : (k p d : Bool) → d ≡ true → (not (k && (p && false)) && d) ≡ true
absent_first k p d h = ground arith

module _ (matched prefixes : List String) where
  at_source :
      (added : List String) (s source : String)
      → (s == source) ≡ true
      → (passes matched prefixes s ≡ passes matched prefixes source)
        × (contains s added ≡ contains source added)
  at_source added s source h =
      let e = (string_comparable.same_iff s source).0 h in
      (ap (passes matched prefixes) e, ap (λ t. contains t added) e)

  IsSources-emitting :
      (added : List String) (type target : String) (paths : List (String × String))
      (sources : List String)
      → emitted matched prefixes added type target ≡ true
      → IsSources matched prefixes (trim_suffix b'/' target ∷ added) paths sources
      → IsSources matched prefixes added
          ((type, target) ∷ paths)
          (trim_suffix b'/' target ∷ sources)
  IsSources-emitting added type target paths sources h (d, c) =
      let source = trim_suffix b'/' target in
      (
        rw (c source, ==_refl source)
            (absent_first (contains (source +++ "/") (already_matched paths))
              (passes matched prefixes source) (distinct sources) d),
        λ s.
            rw (c s, contains-already_matched (s +++ "/") type target paths, slashed_eq s target)
              (step_emitting (is_literal type) (ends_with b'/' target) (s == source)
                (contains (s +++ "/") (already_matched paths)) (passes matched prefixes source)
                (passes matched prefixes s) (contains source added) (contains s added)
                (λ e. (at_source added s source e).0) (λ e. (at_source added s source e).1) h),
      )

  IsSources-passing :
      (added : List String) (type target : String) (paths : List (String × String))
      (sources : List String)
      → emitted matched prefixes added type target ≡ false
      → IsSources matched prefixes added paths sources
      → IsSources matched prefixes added ((type, target) ∷ paths) sources
  IsSources-passing added type target paths sources h (d, c) =
      let source = trim_suffix b'/' target in
      (
        d,
        λ s.
            c s
            ∙ rw (contains-already_matched (s +++ "/") type target paths, slashed_eq s target)
                (step_passing (is_literal type) (ends_with b'/' target) (s == source)
                  (contains (s +++ "/") (already_matched paths)) (passes matched prefixes source)
                  (passes matched prefixes s) (contains source added) (contains s added)
                  (λ e. (at_source added s source e).0) (λ e. (at_source added s source e).1) h),
      )

  ends_of :
      (type target : String) (added : List String)
      → emitted matched prefixes added type target ≡ true
      → ends_with b'/' target ≡ true
  ends_of type target added h =
      let source = trim_suffix b'/' target in
      (and_elim (ends_with b'/' target)
        (passes matched prefixes source && not (contains source added))
        (and_elim (is_literal type)
          (ends_with b'/' target && (passes matched prefixes source && not (contains source added)))
          h).1).0

  redirect_rules-IsSources :
      (added : List String) (paths : List (String × String))
      → contains "" prefixes ≡ false
      → (sources : List String) × (redirect_rules matched prefixes added paths
          ≡ done (map rule_for sources))
        × IsSources matched prefixes added paths sources
  unfolding redirect_rules
  redirect_rules-IsSources added [] h = ([], refl, (refl, λ s. refl))
  redirect_rules-IsSources added ((type, target) ∷ paths) h =
      elim (Bool-cases (emitted matched prefixes added type target)) [
        | inl emitting ↦
            let source = trim_suffix b'/' target in
            let (sources, run, are) = redirect_rules-IsSources (source ∷ added) paths h in
            (
              source ∷ sources,
              rw (emits-emitted matched prefixes added type target h, emitting, run)
                  (ap (λ t. done (trailing_slash_rule source t ∷ map rule_for sources))
                    (sym (append-trim_suffix target (ends_of type target added emitting)))),
              IsSources-emitting added type target paths sources emitting are,
            )
        | inr silent ↦
            let (sources, run, are) = redirect_rules-IsSources added paths h in
            (
              sources,
              rw (emits-emitted matched prefixes added type target h, silent) (rw run refl),
              IsSources-passing added type target paths sources silent are,
            )
      ]

-- If no existing prefix is empty, then `buildTrailingSlashRedirectRules` returns rules that redirect
-- distinct sources `s`, each from the exact path `s` to `s/` with status 301; and `s` is a source
-- just if some exact or prefix path of the rules is `s/`, `s` is not empty, no exact or prefix path is
-- `s`, and no existing prefix covers `s`.
pub build_trailing_slash_redirect_rules-IsSources :
    (rules : List HttpRouteRule)
    → contains "" (existing_prefixes (paths_of rules)) ≡ false
    → (sources : List String) × (build_trailing_slash_redirect_rules rules
        ≡ done (map rule_for sources))
      × (distinct sources ≡ true)
      × ((s : String)
          → contains s sources ≡ (
              contains (s +++ "/") (already_matched (paths_of rules))
              && passes (already_matched (paths_of rules)) (existing_prefixes (paths_of rules)) s))
unfolding build_trailing_slash_redirect_rules
build_trailing_slash_redirect_rules-IsSources rules h =
    let paths = paths_of rules in
    let (sources, run, (d, c)) =
      redirect_rules-IsSources (already_matched paths) (existing_prefixes paths) [] paths h in
    (
      sources,
      run,
      d,
      λ s.
          c s
          ∙ none_added (contains (s +++ "/") (already_matched paths))
              (passes (already_matched paths) (existing_prefixes paths) s),
    )
  where
    none_added : (k p : Bool) → (k && (p && true)) ≡ (k && p)
    none_added k p = ground arith
