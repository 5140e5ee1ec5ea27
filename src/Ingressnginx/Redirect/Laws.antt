-- ===== src/Ingressnginx/Redirect/Laws.antt =====
-- Which redirects `redirectFeature` adds.
use ingress2gateway.Base.{
  ℕ, nat_comparable, ◌≡◌, ◌≢◌, ◌⊎◌, inl, inr, refl, ap, ◌∙◌, Bool, true, false, Bool-cases, Option,
  none, some, List, [], ◌∷◌, ◌++◌, String, string_comparable, ◌==◌, contains, arith, if◌then◌else◌,
  done, All, Pointwise,
}
use ingress2gateway.Base.Dict.{Dict}
use ingress2gateway.Base.Int.{ℤ, pos, negsuc}
use ingress2gateway.Base.ParseInt.{ParsedInt, parse_int64, int32}
use ingress2gateway.Api.Ingress.{Ingress, NamespacedName}
use ingress2gateway.Api.Gateway.{HttpRouteRule, HttpRouteFilter, RequestRedirect}
use ingress2gateway.ProviderIr.{ProviderIr, HttpRouteContext}
use ingress2gateway.Ingressnginx.Annotations.{
  Notice, annotation?, temporal_redirect_annotation, permanent_redirect_annotation,
}
use ingress2gateway.Ingressnginx.Features.Laws.{HasIngresses}
use ingress2gateway.Ingressnginx.RuleChanges.Laws.{IsChanged, change_ir-Pointwise}
use ingress2gateway.Ingressnginx.Redirect.{
  Url, ParsedUrl, parsed, malformed, Target, is_valid_temporal_redirect_code,
  is_valid_permanent_redirect_code, code_or, status_code_of, target_of, redirect_filter,
  redirect_to, with_port, filter_for, filter_of, redirect_target, read_target, read_redirect,
  add_redirect, redirect_change, redirect_feature,
}

-- The status codes of redirects in Gateway API.
abbrev pub redirect_codes : List ℕ
redirect_codes = 301 ∷ 302 ∷ 303 ∷ 307 ∷ 308 ∷ []

abbrev pub IsRedirectCode : ℤ → Type 0
IsRedirectCode z = (n : ℕ) × (z ≡ pos n) × (contains n redirect_codes ≡ true)

-- A redirect to a path that is not empty, with a status code of Gateway API.
abbrev pub IsRedirect : RequestRedirect → Type 0
IsRedirect r =
    (code : ℤ) × (path : String) × (r.status_code ≡ some code)
    × IsRedirectCode code
    × (r.path ≡ some path)
    × (path ≢ "")

abbrev pub IsRedirectFilter : Option HttpRouteFilter → Type 0
IsRedirectFilter none = Unit
IsRedirectFilter (some f) = (r : RequestRedirect) × (f ≡ redirect_filter r) × IsRedirect r

-- A rule stays, or it gets a redirect and loses its backends.
abbrev pub IsRedirected : HttpRouteRule → HttpRouteRule → Type 0
IsRedirected rule rule' =
    (rule' ≡ rule)
    ⊎ ((r : RequestRedirect) × (rule'
          ≡ record rule { filters = rule.filters ++ redirect_filter r ∷ []; backend_refs = [] })
        × IsRedirect r)

temporal_is_code : (z : ℤ) → is_valid_temporal_redirect_code z ≡ true → IsRedirectCode z
unfolding is_valid_temporal_redirect_code
temporal_is_code (pos n) h = (n, refl, ground arith)
temporal_is_code (negsuc n) h = cc

permanent_is_code : (z : ℤ) → is_valid_permanent_redirect_code z ≡ true → IsRedirectCode z
unfolding is_valid_permanent_redirect_code
permanent_is_code (pos n) h = (n, refl, ground arith)
permanent_is_code (negsuc n) h = cc

module _ (is_valid : ℤ → Bool) (default : ℤ)
    (is_code : (z : ℤ) → is_valid z ≡ true → IsRedirectCode z)
    (default_is_code : IsRedirectCode default) where
  code_or-IsRedirectCode :
      (notice : Notice) (code : ParsedInt) → IsRedirectCode (code_or is_valid default notice code).0
  code_or-IsRedirectCode notice code = elim (Bool-cases code.failed) [
    | inl failed ↦ rw failed default_is_code
    | inr ok ↦ elim (Bool-cases (is_valid code.value)) [
      | inl valid ↦ rw (ok, valid) (is_code code.value valid)
      | inr invalid ↦ rw (ok, invalid) default_is_code
    ]
  ]

  status_code_of-IsRedirectCode :
      (notice : Notice) (text : String)
      → IsRedirectCode (status_code_of is_valid default notice text).0
  status_code_of-IsRedirectCode notice text = elim (Bool-cases (text == "")) [
    | inl empty ↦ rw empty default_is_code
    | inr other ↦ rw other (code_or-IsRedirectCode notice (parse_int64 text))
  ]

-- The status code of the target is one for redirects.
abbrev HasCode : Option (Target × List Notice) → Type 0
HasCode none = Unit
HasCode (some t) = IsRedirectCode t.0.status_code

target_of-HasCode :
    (ingress : Ingress) (temporal permanent : Option String)
    → HasCode (target_of ingress temporal permanent)
target_of-HasCode ingress (some url) permanent =
    status_code_of-IsRedirectCode is_valid_temporal_redirect_code (pos 302) temporal_is_code
      (302, refl, refl) _ _
target_of-HasCode ingress none (some url) =
    status_code_of-IsRedirectCode is_valid_permanent_redirect_code (pos 301) permanent_is_code
      (301, refl, refl) _ _
target_of-HasCode ingress none none = tt

abbrev root_or : String → String
root_or path = if path == "" then "/" else path

root_or_nonempty : (path : String) → root_or path ≢ ""
root_or_nonempty path e = elim (Bool-cases (path == "")) [
  | inl empty ↦ let slash : "/" ≡ root_or path = rw empty refl in let f = slash ∙ e in cc
  | inr other ↦ no_text path other (same_root path other ∙ e)
]
  where
    same_root : (p : String) → (p == "") ≡ false → p ≡ root_or p
    same_root p h = rw h refl

    no_text : (p : String) → (p == "") ≡ false → p ≡ "" → ⊥
    no_text p h f = let t = (string_comparable.same_iff p "").1 f in cc

redirect_to-IsRedirectFilter :
    (status : ℤ) (u : Url) (port : Option ℤ)
    → IsRedirectCode status
    → IsRedirectFilter (some (redirect_to status u port))
redirect_to-IsRedirectFilter status u port h =
    (_, refl, (status, root_or u.path, refl, h, refl, root_or_nonempty u.path))

filter_for-IsRedirectFilter :
    (t : Target) (u : ParsedUrl)
    → IsRedirectCode t.status_code
    → IsRedirectFilter (filter_for t u).0
filter_for-IsRedirectFilter t (malformed e) h = tt
filter_for-IsRedirectFilter t (parsed u) h = elim (Bool-cases (u.port == "")) [
  | inl empty ↦ rw empty (redirect_to-IsRedirectFilter t.status_code u none h)
  | inr other ↦ rw other (by_number (parse_int64 u.port))
]
  where
    by_number : (number : ParsedInt) → IsRedirectFilter (with_port t u number).0
    by_number number = elim (Bool-cases number.failed) [
      | inl failed ↦ rw failed tt
      | inr ok ↦ rw ok (redirect_to-IsRedirectFilter t.status_code u (some (int32 number.value)) h)
    ]

filter_of-IsRedirectFilter :
    (parse_url : String → ParsedUrl) (t : Target)
    → IsRedirectCode t.status_code
    → IsRedirectFilter (filter_of parse_url t).0
filter_of-IsRedirectFilter parse_url t h = elim (Bool-cases (t.url == "")) [
  | inl empty ↦ rw empty tt
  | inr other ↦ rw other (filter_for-IsRedirectFilter t (parse_url t.url) h)
]

read_target-IsRedirectFilter :
    (parse_url : String → ParsedUrl) (proxied : List Notice) (o : Option (Target × List Notice))
    → HasCode o
    → IsRedirectFilter (read_target parse_url proxied o).0
read_target-IsRedirectFilter parse_url proxied none h = tt
read_target-IsRedirectFilter parse_url proxied (some t) h =
    filter_of-IsRedirectFilter parse_url t.0 h

read_redirect-IsRedirectFilter :
    (parse_url : String → ParsedUrl) (ingress : Ingress)
    → IsRedirectFilter (read_redirect parse_url ingress).0
unfolding read_redirect
read_redirect-IsRedirectFilter parse_url ingress =
    read_target-IsRedirectFilter parse_url _ (redirect_target ingress) (
      target_of-HasCode ingress (annotation? temporal_redirect_annotation ingress)
        (annotation? permanent_redirect_annotation ingress))

redirect_change-IsRedirected :
    (parse_url : String → ParsedUrl) (ingress : Ingress) (rule : HttpRouteRule)
    → IsRedirected rule (redirect_change parse_url ingress rule).0
redirect_change-IsRedirected parse_url ingress rule =
    by_filter (read_redirect parse_url ingress).0 (read_redirect-IsRedirectFilter parse_url ingress)
  where
    by_filter :
        (o : Option HttpRouteFilter) → IsRedirectFilter o → IsRedirected rule (add_redirect rule o)
    by_filter none h = inl refl
    by_filter (some f) (r, e, h) =
        inr (r, ap (λ g. record rule { filters = rule.filters ++ g ∷ []; backend_refs = [] }) e, h)

-- If every source of a rule has an Ingress, then `redirectFeature` returns; it changes only the
-- rules of HTTPRoutes, and a rule stays as it is, or it gets a redirect at the end of its filters and
-- loses its backends; the redirect has one of the status codes 301, 302, 303, 307 and 308, and a
-- path that is not empty.
pub redirect_feature-IsRedirected :
    (parse_url : String → ParsedUrl) (ir : ProviderIr)
    → All HasIngresses ir.http_routes
    → (routes : Dict NamespacedName HttpRouteContext) × (notices : List Notice) × (redirect_feature
          parse_url ir
        ≡ done (record ir { http_routes = routes }, notices))
      × Pointwise (IsChanged IsRedirected) ir.http_routes routes
unfolding redirect_feature
redirect_feature-IsRedirected parse_url ir h =
    change_ir-Pointwise (redirect_change parse_url) IsRedirected (λ rule. inl refl)
      (redirect_change-IsRedirected parse_url) ir h
