-- ===== src/Common/Names/Chars.antt =====
-- The characters of the names that pkg/i2gw/providers/common/utils.go makes from hosts.
use text.Mathlib.TextEquality.{eq_iff}
use text.Mathlib.TextLemmas.{cons-ne-nil}
use ingress2gateway.Base.{
  ◌≡◌, refl, ◌≢◌, ◌↔◌, Bool, true, false, ◌&&◌, ◌||◌, not, arith, code, String, eqb, ◌==◌,
  string_comparable, ◌⊎◌, inl, inr, Bool-cases,
}
use ingress2gateway.Common.Names.{is_alnum, replace_special, trim_special, name_from_host}

is_alnum_dash : is_alnum "-" ≡ false
unfolding is_alnum
is_alnum_dash = refl

-- The two cases of the last test of `NameFromHost`.
pub name_from_host_cases :
    (host : String)
    → (((host ≡ "") ⊎ (host ≡ "*")) × (name_from_host host ≡ "all-hosts"))
      ⊎ ((host ≢ "")
          × (host ≢ "*")
          × (name_from_host host ≡ trim_special (replace_special false host)))
unfolding name_from_host
name_from_host_cases host = elim (Bool-cases (host == "")) [
  | inl empty ↦ inl (inl ((eq_iff host "").0 empty), rw empty)
  | inr set ↦ elim (Bool-cases (host == "*")) [
    | inl star ↦ inl (inr ((eq_iff host "*").0 star), rw (set, star))
    | inr other ↦
        inr (ground (arith, eq_iff host ""), ground (arith, eq_iff host "*"), rw (set, other))
  ]
]

-- Every character is alphanumeric or "-".
abbrev pub is_name : String → Bool
is_name String.[] = true
is_name (String.◌∷◌ c s) = (is_alnum c || eqb (code c) b'-') && is_name s

-- The text does not begin with a character that is not alphanumeric.
abbrev pub starts_plain : String → Bool
starts_plain String.[] = true
starts_plain (String.◌∷◌ c s) = is_alnum c

-- No character is alphanumeric.
abbrev pub no_alnum : String → Bool
no_alnum String.[] = true
no_alnum (String.◌∷◌ c s) = not (is_alnum c) && no_alnum s

all_hosts-is_name : (is_name "all-hosts" ≡ true) × (starts_plain "all-hosts" ≡ true)
unfolding is_alnum
all_hosts-is_name = (refl, refl)

replace_special-is_name : (inside : Bool) (s : String) → is_name (replace_special inside s) ≡ true
unfolding replace_special
replace_special-is_name inside String.[] = refl
replace_special-is_name inside (String.◌∷◌ c s) =
    ground (arith, is_alnum_dash, replace_special-is_name (not (is_alnum c)) s)

trim_special-is_name : (s : String) → is_name s ≡ true → is_name (trim_special s) ≡ true
unfolding trim_special
trim_special-is_name String.[] h = refl
trim_special-is_name (String.◌∷◌ c s) h = ground (arith, trim_special-is_name s)

trim_special-starts_plain : (s : String) → starts_plain (trim_special s) ≡ true
unfolding trim_special
trim_special-starts_plain String.[] = refl
trim_special-starts_plain (String.◌∷◌ c s) = ground (arith, trim_special-starts_plain s)

-- The name of a host has only letters, digits and "-", and does not begin with "-".
pub name_from_host-is_name :
    (host : String)
    → (is_name (name_from_host host) ≡ true) × (starts_plain (name_from_host host) ≡ true)
name_from_host-is_name host = elim (name_from_host_cases host) [
  | inl (_, e) ↦ rw e all_hosts-is_name
  | inr (_, _, e) ↦ rw e (
    trim_special-is_name (replace_special false host) (replace_special-is_name false host),
    trim_special-starts_plain (replace_special false host),
  )
]

trimmed_of_no_alnum :
    (inside : Bool) (s : String) → no_alnum s ≡ true → trim_special (replace_special inside s) ≡ ""
unfolding trim_special replace_special
trimmed_of_no_alnum inside String.[] h = refl
trimmed_of_no_alnum inside (String.◌∷◌ c s) h =
    ground (arith, is_alnum_dash, trimmed_of_no_alnum true s)

no_alnum_of_trimmed :
    (inside : Bool) (s : String) → trim_special (replace_special inside s) ≡ "" → no_alnum s ≡ true
unfolding trim_special replace_special
no_alnum_of_trimmed inside String.[] h = refl
no_alnum_of_trimmed inside (String.◌∷◌ c s) h = ground (
  arith,
  is_alnum_dash,
  no_alnum_of_trimmed true s,
  cons-ne-nil c (replace_special (not (is_alnum c)) s),
)

-- The name of a host is empty exactly when the host is neither "" nor "*" and none of its
-- characters is a letter or a digit.
pub name_from_host-eq-empty_iff :
    (host : String)
    → (name_from_host host ≡ "") ↔ ((host ≢ "") × (host ≢ "*") × (no_alnum host ≡ true))
name_from_host-eq-empty_iff host = elim (name_from_host_cases host) [
  | inl (everything, e) ↦ rw e (λ h. absurd (all_hosts_set h), λ h. absurd (not_both everything h))
  | inr (set, other, e) ↦
      rw e (
        λ h. (set, other, no_alnum_of_trimmed false host h),
        λ h. trimmed_of_no_alnum false host h.2,
      )
]
  where
    all_hosts_set : ◌≢◌ {A = String} "all-hosts" ""
    all_hosts_set = ground (arith, eq_iff "all-hosts" "")

    not_both : (host ≡ "") ⊎ (host ≡ "*") → (host ≢ "") × (host ≢ "*") × (no_alnum host ≡ true) → ⊥
    not_both (inl a) (b, c, d) = b a
    not_both (inr a) (b, c, d) = c a
