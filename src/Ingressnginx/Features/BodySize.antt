-- ===== src/Ingressnginx/Features/BodySize.antt =====
-- pkg/i2gw/providers/ingressnginx/bodysize.go. `resource.ParseQuantity` of k8s.io/apimachinery is a
-- parameter.
use ingress2gateway.Base.{
  Bool, ◌&&◌, ◌||◌, Option, none, some, List, [], ◌∷◌, ◌++◌, map, ℕ, code, String, leb, eqb,
  if◌then◌else◌,
}
use ingress2gateway.Base.Text.{◌+++◌}
use ingress2gateway.Base.Strings.{trim_space}
use ingress2gateway.Api.Ingress.{Ingress}
use ingress2gateway.EmitterIr.{BodySize}
use ingress2gateway.Ingressnginx.Annotations.{
  Notice, warn, report_error, nonempty_annotation?, full_name, annotation_path,
  proxy_body_size_annotation, client_body_buffer_size_annotation,
}
use ingress2gateway.Ingressnginx.Features.{RuleFeature}

abbrev pub is_digit : ℕ → Bool
is_digit n = leb b'0' n && leb n b'9'

-- The digits at the start, and what follows them.
unfoldable pub leading_digits : String → String × String
leading_digits String.[] = (String.[], String.[])
leading_digits (String.◌∷◌ c s) =
    let rest = leading_digits s in
    if is_digit (code c) then (String.◌∷◌ c rest.0, rest.1) else (String.[], String.◌∷◌ c s)

-- The unit of Kubernetes for the letter that `(?i)[bkmg]` matches: 8490 is the Kelvin sign, whose
-- lower case is `k`.
abbrev pub unit_of_letter : ℕ → Option String
unit_of_letter n =
    if eqb n b'b' || eqb n b'B'
    then some ""
    else if eqb n b'k' || (eqb n b'K' || eqb n 8490)
    then some "Ki"
    else if eqb n b'm' || eqb n b'M'
    then some "Mi"
    else if eqb n b'g' || eqb n b'G'
    then some "Gi"
    else none

abbrev pub unit_of : String → Option String
unit_of String.[] = some ""
unit_of (String.◌∷◌ c String.[]) = unit_of_letter (code c)
unit_of (String.◌∷◌ c (String.◌∷◌ d s)) = none

abbrev pub with_unit : String → Option String → Option String
with_unit number none = none
with_unit String.[] (some unit) = none
with_unit (String.◌∷◌ c number) (some unit) = some (String.◌∷◌ c number +++ unit)

-- `convertNginxSizeToK8sQuantity`, with `none` for its error.
unfoldable pub convert_nginx_size_to_k8s_quantity : String → Option String
unfolding leading_digits
convert_nginx_size_to_k8s_quantity nginx_size =
    let found = leading_digits (trim_space nginx_size) in with_unit found.0 (unit_of found.1)

-- A quantity, as text, or the text of the error.
pub data Quantity : Type 0 where
  quantity : String → Quantity
  bad_quantity : String → Quantity

-- What an annotation says: nothing, a quantity, or a text that is refused, with the message's texts.
pub data Setting : Type 0 where
  unset : Setting
  set_to : String → Setting
  refused : List String → Setting

abbrev pub setting_of_quantity : String → Quantity → Setting
setting_of_quantity val (quantity q) = set_to q
setting_of_quantity val (bad_quantity e) = refused (val ∷ e ∷ [])

abbrev pub setting_of_size : (String → Quantity) → String → Option String → Setting
setting_of_size parse val none =
    refused (val ∷ "invalid nginx size format: %q" ∷ trim_space val ∷ [])
setting_of_size parse val (some size) = setting_of_quantity val (parse size)

abbrev pub setting_of : (String → Quantity) → Option String → Setting
setting_of parse none = unset
setting_of parse (some val) = setting_of_size parse val (convert_nginx_size_to_k8s_quantity val)

abbrev pub value_of : Setting → Option String
value_of unset = none
value_of (set_to q) = some q
value_of (refused texts) = none

abbrev pub key_of : String → Setting → List String
key_of key unset = []
key_of key (set_to q) = key ∷ []
key_of key (refused texts) = key ∷ []

-- The entry for the settings of `proxy-body-size` and `client-body-buffer-size`: a text that is
-- refused ends the loop's body.
abbrev pub body_size_entry : Ingress → Setting → Setting → Option BodySize × List Notice
body_size_entry ing (refused texts) buffer =
    (none, report_error "Invalid proxy-body-size annotation %q: %v, skipping body size" texts ∷ [])
body_size_entry ing unset (refused texts) = (
  none,
  warn "Invalid client-body-buffer-size annotation %q: %v, skipping buffer size" texts ∷ [],
)
body_size_entry ing (set_to q) (refused texts) = (
  none,
  warn "Invalid client-body-buffer-size annotation %q: %v, skipping buffer size" texts ∷ [],
)
body_size_entry ing unset unset = (none, [])
body_size_entry ing max buffer = (
  some (record {
    metadata = record {
      source = full_name ing;
      paths = map (annotation_path ing) (
          key_of proxy_body_size_annotation max
          ++ key_of client_body_buffer_size_annotation buffer);
      failure_message =
          "Most Gateway API implementations have reasonable body size and buffering defaults";
    };
    buffer_size = value_of buffer;
    max_size = value_of max;
  }),
  [],
)

unfoldable pub read_body_size : (String → Quantity) → Ingress → Option BodySize × List Notice
read_body_size parse ing =
    body_size_entry ing (setting_of parse (nonempty_annotation? proxy_body_size_annotation ing))
      (setting_of parse (nonempty_annotation? client_body_buffer_size_annotation ing))

-- `applyBodySizeToEmitterIR`
abbrev pub body_size_feature : (String → Quantity) → RuleFeature BodySize
body_size_feature parse = record {
  get = λ e. e.body_size_by_rule_idx;
  set = λ m e. record e { body_size_by_rule_idx = m };
  rules = λ p e. e.route.rules;
  read = λ p ing. read_body_size parse ing;
}
