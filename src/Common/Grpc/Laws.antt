-- ===== src/Common/Grpc/Laws.antt =====
-- Parsing gRPC paths, converting filters and removing gRPC backends.
use mathlib.Core.Path.{subst}
use mathlib.Core.List.{append-nil, append_assoc, map-append}
use text.Mathlib.TextLemmas.{cons-append, nil-append}
use text.Mathlib.TextEquality.{Char-path}
use ingress2gateway.Base.{
  ◌≡◌, refl, sym, ap, ◌∙◌, ◌≢◌, ◌⊎◌, inl, inr, Bool, false, not, ◌||◌, Option, none, some, List, [],
  ◌∷◌, ◌++◌, map, arith, String, ◌==◌, string_comparable, if◌then◌else◌, Bool-cases, keep,
  keep-append, All, Pointwise, true, ◌&&◌, code, eqb, eqb_iff,
}
use ingress2gateway.Base.Text.{◌+++◌, split2, trim_prefix, has_char}
use ingress2gateway.Base.Pieces.{slash_append, split2-append}
use ingress2gateway.Api.Gateway.{
  BackendRef, HttpRouteFilter, GrpcRouteFilter, HttpRoute, HttpRouteRule, HeaderFilter,
}
use ingress2gateway.Common.Grpc.{
  parse_grpc_service_method, GrpcFilterConversionResult, request_modifier, response_modifier,
  add_modifier, convert_filter, convert_filters, convert_http_filters_to_grpc_filters,
  is_http_backend, keep_rule, remaining_rules, remove_grpc_rules_from_http_route,
}

-- Parsing "/service/method" gives back the service and the method, if no "/" is in the service.
pub parse_grpc-format :
    (service method : String)
    → has_char b'/' service ≡ false
    → parse_grpc_service_method ("/" +++ service +++ "/" +++ method) ≡ (service, method)
unfolding parse_grpc_service_method
parse_grpc-format service method h =
    rw (slash_append (service +++ "/" +++ method), slash_append method)
      (rw (split2-append service method h))

split2_cases :
    (s : String)
    → ((has_char b'/' s ≡ false) × (split2 b'/' s ≡ s ∷ []))
      ⊎ ((a b : String) × (has_char b'/' a ≡ false)
          × (s ≡ a +++ "/" +++ b)
          × (split2 b'/' s ≡ a ∷ b ∷ []))
split2_cases String.[] = inl (refl, refl)
split2_cases (String.◌∷◌ c s) = elim (Bool-cases (eqb (code c) b'/')) [
  | inl slash ↦ inr (
    "",
    s,
    refl,
    ap (λ d. String.◌∷◌ d s) (Char-path c "/" ((eqb_iff _ _).0 slash))
        ∙ sym (nil-append ("/" +++ s) ∙ slash_append s),
    rw slash,
  )
  | inr other ↦ elim (split2_cases s) [
    | inl (none_left, e) ↦ inl (rw other none_left, rw (other, e))
    | inr (a, b, plain, is_s, e) ↦ inr (
      String.◌∷◌ c a,
      b,
      rw other plain,
      ap (String.◌∷◌ c) is_s ∙ sym (cons-append c a ("/" +++ b)),
      rw (other, e),
    )
  ]
]

-- The parsed service has no "/", and the path without its first "/" is the service alone, with
-- an empty method, or the service and the method with a "/" between them.
pub format-parse_grpc :
    (path : String)
    → let (service, method) = parse_grpc_service_method path in
      (has_char b'/' service ≡ false)
      × (((trim_prefix b'/' path ≡ service) × (method ≡ ""))
          ⊎ (trim_prefix b'/' path ≡ service +++ "/" +++ method))
unfolding parse_grpc_service_method
format-parse_grpc path = elim (split2_cases (trim_prefix b'/' path)) [
  | inl (plain, e) ↦ rw e (plain, inl (refl, refl))
  | inr (a, b, plain, is_s, e) ↦ rw e (plain, inr is_s)
]

-- The filters of a type, and whether the headers that go with the type are there.
abbrev pub is_modifier : HttpRouteFilter → Bool
is_modifier f = (f.type == "RequestHeaderModifier") || (f.type == "ResponseHeaderModifier")

abbrev is_set : Option HeaderFilter → Bool
is_set none = false
is_set (some h) = true

abbrev pub has_headers : HttpRouteFilter → Bool
has_headers f =
    if f.type == "RequestHeaderModifier"
    then is_set f.request_header_modifier
    else (f.type == "ResponseHeaderModifier") && is_set f.response_header_modifier

-- The gRPC filter has the type of the HTTP filter, and of the headers those that go with the type.
abbrev pub IsCopy : HttpRouteFilter → GrpcRouteFilter → Type 0
IsCopy f g =
    (g.type ≡ f.type)
    × (g.request_header_modifier
        ≡ (if f.type == "RequestHeaderModifier" then f.request_header_modifier else none))
    × (g.response_header_modifier
        ≡ (if f.type == "RequestHeaderModifier" then none else f.response_header_modifier))

abbrev pub IsReported : List HttpRouteFilter → List String → Type 0
IsReported fs types = types ≡ map (λ f. f.type) (keep (λ f. not (is_modifier f)) fs)

Pointwise-snoc :
    (xs : List HttpRouteFilter) (ys : List GrpcRouteFilter) (x : HttpRouteFilter)
    (y : GrpcRouteFilter)
    → Pointwise IsCopy xs ys
    → IsCopy x y
    → Pointwise IsCopy (xs ++ x ∷ []) (ys ++ y ∷ [])
Pointwise-snoc [] [] x y h c = (c, tt)
Pointwise-snoc [] (z ∷ ys) x y h c = elim h [ ]
Pointwise-snoc (z ∷ xs) [] x y h c = elim h [ ]
Pointwise-snoc (a ∷ xs) (b ∷ ys) x y (p, h) c = (p, Pointwise-snoc xs ys x y h c)

add_modifier-IsCopy :
    (f : HttpRouteFilter) (make : HeaderFilter → GrpcRouteFilter) (o : Option HeaderFilter)
    (before : List HttpRouteFilter) (filters : List GrpcRouteFilter)
    → ((x : HeaderFilter) → o ≡ some x → IsCopy f (make x))
    → Pointwise IsCopy before filters
    → Pointwise IsCopy (before ++ (if is_set o then f ∷ [] else [])) (add_modifier make o filters)
unfolding add_modifier
add_modifier-IsCopy f make none before filters c h = rw (append-nil before) h
add_modifier-IsCopy f make (some x) before filters c h =
    Pointwise-snoc before filters f (make x) h (c x refl)

-- The filters that were converted, after one more.
converted :
    (before : List HttpRouteFilter) (f : HttpRouteFilter) (acc : GrpcFilterConversionResult)
    → Pointwise IsCopy (keep has_headers before) acc.grpc_filters
    → Pointwise IsCopy (keep has_headers (before ++ f ∷ [])) (convert_filter f acc).grpc_filters
unfolding convert_filter
converted before f acc h =
    rw (keep-append has_headers before (f ∷ []))
      (elim (Bool-cases (f.type == "RequestHeaderModifier")) [
        | inl request ↦ rw request (
            add_modifier-IsCopy f request_modifier f.request_header_modifier
              (keep has_headers before) acc.grpc_filters (λ x e. request_copy request x e) h)
        | inr other ↦ elim (Bool-cases (f.type == "ResponseHeaderModifier")) [
          | inl response ↦
              rw (other, response)
                (add_modifier-IsCopy f response_modifier f.response_header_modifier
                  (keep has_headers before) acc.grpc_filters
                  (λ x e. response_copy other response x e) h)
          | inr neither ↦ rw (other, neither, append-nil (keep has_headers before)) h
        ]
      ])
  where
    request_copy :
        (f.type == "RequestHeaderModifier") ≡ true
        → (x : HeaderFilter) → f.request_header_modifier ≡ some x
        → IsCopy f (request_modifier x)
    request_copy request x e =
        (sym ((string_comparable.same_iff _ _).0 request), rw request (sym e), rw request refl)

    response_copy :
        (f.type == "RequestHeaderModifier") ≡ false
        → (f.type == "ResponseHeaderModifier") ≡ true
        → (x : HeaderFilter) → f.response_header_modifier ≡ some x
        → IsCopy f (response_modifier x)
    response_copy other response x e =
        (sym ((string_comparable.same_iff _ _).0 response), rw other refl, rw other (sym e))

reported :
    (before : List HttpRouteFilter) (f : HttpRouteFilter) (acc : GrpcFilterConversionResult)
    → IsReported before acc.unsupported_types
    → IsReported (before ++ f ∷ []) (convert_filter f acc).unsupported_types
unfolding convert_filter
reported before f acc h =
    rw
      (
        keep-append (λ f. not (is_modifier f)) before (f ∷ []),
        map-append (λ (f : HttpRouteFilter). f.type) (keep (λ f. not (is_modifier f)) before)
            (keep (λ f. not (is_modifier f)) (f ∷ [])),
      )
      (elim (Bool-cases (f.type == "RequestHeaderModifier")) [
        | inl request ↦
            rw
              (
                request,
                append-nil (
                    map (λ (f : HttpRouteFilter). f.type) (keep (λ f. not (is_modifier f)) before)),
              )
              h
        | inr other ↦ elim (Bool-cases (f.type == "ResponseHeaderModifier")) [
          | inl response ↦
              rw
                (
                  other,
                  response,
                  append-nil (
                      map (λ (f : HttpRouteFilter). f.type)
                        (keep (λ f. not (is_modifier f)) before)),
                )
                h
          | inr neither ↦ rw (other, neither) (ap (λ types. types ++ f.type ∷ []) h)
        ]
      ])

convert_filters_lem :
    (before fs : List HttpRouteFilter) (acc : GrpcFilterConversionResult)
    → Pointwise IsCopy (keep has_headers before) acc.grpc_filters
    → IsReported before acc.unsupported_types
    → Pointwise IsCopy (keep has_headers (before ++ fs)) (convert_filters fs acc).grpc_filters
      × IsReported (before ++ fs) (convert_filters fs acc).unsupported_types
unfolding convert_filters
convert_filters_lem before [] acc h k = rw (append-nil before) (h, k)
convert_filters_lem before (f ∷ fs) acc h k =
    subst
      (λ all.
        Pointwise IsCopy (keep has_headers all)
          (convert_filters fs (convert_filter f acc)).grpc_filters
        × IsReported all (convert_filters fs (convert_filter f acc)).unsupported_types)
      (append_assoc before (f ∷ []) fs)
      (convert_filters_lem (before ++ f ∷ []) fs (convert_filter f acc) (converted before f acc h)
        (reported before f acc k))

-- The converted filters are the header modifiers that have their headers, in order, each with the
-- same type and the same headers and no others; and the types of all other filters are reported, in
-- order.
pub convert_http_filters_lem :
    (filters : List HttpRouteFilter)
    → let result = convert_http_filters_to_grpc_filters filters in
      Pointwise IsCopy (keep has_headers filters) result.grpc_filters
      × (result.unsupported_types ≡ map (λ f. f.type) (keep (λ f. not (is_modifier f)) filters))
unfolding convert_http_filters_to_grpc_filters
convert_http_filters_lem filters =
    convert_filters_lem [] filters (record { grpc_filters = []; unsupported_types = [] }) tt refl

-- The backends of all rules, in order.
abbrev pub backends_of : List HttpRouteRule → List BackendRef
backends_of [] = []
backends_of (r ∷ rs) = r.backend_refs ++ backends_of rs

keep_rule-backends :
    (grpc : List String) (rule : HttpRouteRule) (rest : List HttpRouteRule)
    → backends_of (keep_rule grpc rule rest)
      ≡ keep (is_http_backend grpc) rule.backend_refs ++ backends_of rest
unfolding keep_rule
keep_rule-backends grpc rule rest = ground arith

remaining_rules-backends :
    (grpc : List String) (rules : List HttpRouteRule)
    → backends_of (remaining_rules grpc rules) ≡ keep (is_http_backend grpc) (backends_of rules)
unfolding remaining_rules
remaining_rules-backends grpc [] = refl
remaining_rules-backends grpc (r ∷ rs) =
    keep_rule-backends grpc r (remaining_rules grpc rs)
    ∙ ap (λ l. keep (is_http_backend grpc) r.backend_refs ++ l) (remaining_rules-backends grpc rs)
    ∙ sym (keep-append (is_http_backend grpc) r.backend_refs (backends_of rs))

remaining_rules-nonempty :
    (grpc : List String) (rules : List HttpRouteRule)
    → All (λ (r : HttpRouteRule). r.backend_refs ≢ []) (remaining_rules grpc rules)
unfolding remaining_rules keep_rule
remaining_rules-nonempty grpc [] = tt
remaining_rules-nonempty grpc (r ∷ rs) = ground (arith, remaining_rules-nonempty grpc rs)

-- The backends that stay are those that name no gRPC service, in order, and no rule without a
-- backend stays.
pub remove_grpc_rules_lem :
    (route : HttpRoute) (grpc : List String)
    → (backends_of (remove_grpc_rules_from_http_route route grpc)
        ≡ keep (is_http_backend grpc) (backends_of route.rules))
      × All
          (λ (r : HttpRouteRule). r.backend_refs ≢ [])
          (remove_grpc_rules_from_http_route route grpc)
unfolding remove_grpc_rules_from_http_route
remove_grpc_rules_lem route grpc =
    (remaining_rules-backends grpc route.rules, remaining_rules-nonempty grpc route.rules)
