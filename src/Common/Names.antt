-- ===== src/Common/Names.antt =====
-- pkg/i2gw/providers/common/utils.go: the class of an Ingress, and names made from hosts. The
-- two regular expressions of `NameFromHost` are written out as scans over code points.
pub mod Chars
pub mod Collisions
use Prim.Native.String
use ingress2gateway.Base.{
  ℕ, ◌≡◌, refl, ◌≢◌, Bool, true, false, ◌&&◌, ◌||◌, not, Option, none, some, List, [], ◌∷◌, arith,
  Char, code, String, leb, eqb, ◌==◌, string_comparable, ◌⊎◌, inl, inr, Bool-cases, Option-cases,
  if◌then◌else◌,
}
use ingress2gateway.Base.Dict.{lookup, lookup_or}
use ingress2gateway.Base.Text.{◌+++◌}
use ingress2gateway.Api.Ingress.{Ingress}

-- `networkingv1beta1.AnnotationIngressClass`
abbrev pub ingress_class_annotation : String
ingress_class_annotation = "kubernetes.io/ingress.class"

-- The annotation, with "" for a missing one.
class_of_annotation : Ingress → String
class_of_annotation ingress = elim (lookup ingress_class_annotation ingress.annotations) [
  | some _ ↦ lookup_or "" ingress_class_annotation ingress.annotations
  | none ↦ ""
]

class_of : Option String → String → String
class_of none other = other
class_of (some class) other = if not (class == "") then class else other

unfoldable pub get_ingress_class : Ingress → String
unfolding class_of class_of_annotation
get_ingress_class ingress = class_of ingress.ingress_class_name (class_of_annotation ingress)

-- `[a-zA-Z0-9]`
unfoldable pub is_alnum : Char → Bool
is_alnum c =
    (leb b'a' (code c) && leb (code c) b'z')
    || ((leb b'A' (code c) && leb (code c) b'Z') || (leb b'0' (code c) && leb (code c) b'9'))

-- `regexp.MustCompile("[^a-zA-Z0-9]+").ReplaceAllString(host, "-")`; the flag says whether the
-- scan stands inside a run that "-" has replaced already.
unfoldable pub replace_special : Bool → String → String
replace_special inside String.[] = String.[]
replace_special inside (String.◌∷◌ c s) =
    let rest = replace_special (not (is_alnum c)) s in
    if is_alnum c then String.◌∷◌ c rest else if inside then rest else String.◌∷◌ "-" rest

-- `regexp.MustCompile("^[^a-zA-Z0-9]+").ReplaceAllString(step1, "")`
unfoldable pub trim_special : String → String
trim_special String.[] = String.[]
trim_special (String.◌∷◌ c s) = if is_alnum c then String.◌∷◌ c s else trim_special s

unfoldable pub name_from_host : String → String
name_from_host host =
    let step1 = replace_special false host in
    let step2 = trim_special step1 in if (host == "") || (host == "*") then "all-hosts" else step2

unfoldable pub route_name : String → String → String
route_name ingress_name host = ingress_name +++ "-" +++ name_from_host host
