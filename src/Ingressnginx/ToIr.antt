-- ===== src/Ingressnginx/ToIr.antt =====
-- pkg/i2gw/providers/ingressnginx/ingressnginx.go: `Provider.ToIR`, from the provider IR that
-- `convert` returns. Printing a duration and parsing a quantity are parameters.
use ingress2gateway.Base.{List, ◌++◌, String, Go, done, ◌>>=◌}
use ingress2gateway.Base.Int.{ℤ}
use ingress2gateway.Api.Field.{FieldError}
use ingress2gateway.Api.Ingress.{Ingress}
use ingress2gateway.ProviderIr.{ProviderIr}
use ingress2gateway.ProviderIr.Conversion.{to_emitter_ir}
use ingress2gateway.EmitterIr.{EmitterIr}
use ingress2gateway.Ingressnginx.Annotations.{Notice}
use ingress2gateway.Ingressnginx.Features.{apply_feature}
use ingress2gateway.Ingressnginx.Features.Timeouts.{timeouts_feature}
use ingress2gateway.Ingressnginx.Features.BodySize.{Quantity, body_size_feature}
use ingress2gateway.Ingressnginx.Features.IpRange.{ip_range_feature}
use ingress2gateway.Ingressnginx.Features.Rewrite.{rewrite_feature}
use ingress2gateway.Ingressnginx.Features.Cors.{cors_feature}
use ingress2gateway.Ingressnginx.SslRedirect.{add_ssl_and_trailing_slash_redirects}
use ingress2gateway.Ingressnginx.WwwRedirect.{add_www_redirect}

pub record ToIrResult : Type 0 where
  pub ir : EmitterIr
  pub errors : List FieldError
  pub notices : List Notice

-- The five features that fill the emitter IR, in the order of the calls.
unfoldable pub apply_features :
    (ℤ → String)
    → (String → Quantity)
    → List Ingress
    → ProviderIr
    → EmitterIr
    → Go (EmitterIr × List Notice)
unfolding apply_feature
apply_features print_duration parse_quantity ingresses pir eir =
    apply_feature (rewrite_feature ingresses) pir eir >>= λ a.
    apply_feature ip_range_feature pir a.0 >>= λ b.
    apply_feature (timeouts_feature print_duration) pir b.0 >>= λ c.
    apply_feature cors_feature pir c.0 >>= λ d.
    apply_feature (body_size_feature parse_quantity) pir d.0 >>= λ e.
    done (e.0, a.1 ++ b.1 ++ c.1 ++ d.1 ++ e.1)

unfoldable pub provider_to_ir :
    (ℤ → String) → (String → Quantity) → List Ingress → ProviderIr → List FieldError → Go ToIrResult
unfolding apply_features
provider_to_ir print_duration parse_quantity ingresses pir errors =
    apply_features print_duration parse_quantity ingresses pir (to_emitter_ir pir) >>= λ x.
    add_ssl_and_trailing_slash_redirects ingresses pir x.0 >>= λ eir.
    add_www_redirect pir eir >>= λ y.
    done (record { ir = y.0; errors = errors ++ y.1; notices = x.1 })
