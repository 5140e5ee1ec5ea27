-- ===== src/Common/Listeners/Unique.antt =====
-- What the merge of listeners by name yields.
use text.Mathlib.TextEquality.{eq_iff}
use text.Mathlib.TextLemmas.{cons-append}
use mathlib.Core.Path.{subst, ap₂}
use mathlib.Core.Bool.{false≢true}
use ingress2gateway.Base.{
  ◌≡◌, refl, sym, ap, ◌∙◌, Bool, true, false, not, Option, none, some, List, [], ◌∷◌, ◌++◌, map,
  String, ◌==◌, string_comparable, contains, contains-append, Go, done, ◌>>=◌, arith, code, eqb,
  All, keep, distinct, Option-cases, Bool-cases, inl, inr, ◌⊎◌, eq_of_some-eq,
}
use ingress2gateway.Base.Dict.{Dict, lookup, insert, lookup-insert}
use ingress2gateway.Base.Firsts.{
  firsts_by, firsts_by-distinct, keep-firsts_by_seen, keep-firsts_by_new, distinct-append_new,
}
use ingress2gateway.Base.Text.{◌+++◌}
use ingress2gateway.Api.Gateway.{SecretRef, Listener}
use ingress2gateway.Common.Listeners.{
  Named, listener_prefix, add_if_new, append_refs, merge_refs, http_listener, https_listener,
  add_https, add_listener, add_listeners, dedup_refs, dedup_tls, collect, merge_listeners,
}

-- Whether the last character is "s", as it is of the name of an HTTPS listener.
abbrev ends_from : Bool → String → Bool
ends_from b String.[] = b
ends_from b (String.◌∷◌ c s) = ends_from (eqb (code c) b's') s

abbrev pub ends_s : String → Bool
ends_s s = ends_from false s

ends_from-http : (b : Bool) (p : String) → ends_from b (p +++ "http") ≡ false
ends_from-http b String.[] = refl
ends_from-http b (String.◌∷◌ c p) =
    rw (cons-append c p "http") (ends_from-http (eqb (code c) b's') p)

ends_from-https : (b : Bool) (p : String) → ends_from b (p +++ "https") ≡ true
ends_from-https b String.[] = refl
ends_from-https b (String.◌∷◌ c p) =
    rw (cons-append c p "https") (ends_from-https (eqb (code c) b's') p)

-- An HTTPS listener on port 443 with TLS, or an HTTP listener on port 80 without.
abbrev pub IsListener : Listener → Type 0
IsListener l =
    ((ends_s l.name ≡ true)
      × (l.port ≡ 443)
      × (l.protocol ≡ "HTTPS")
      × ((refs : List SecretRef) × (l.tls ≡ some refs)))
    ⊎ ((ends_s l.name ≡ false) × (l.port ≡ 80) × (l.protocol ≡ "HTTP") × (l.tls ≡ none))

abbrev is_some {ℓ} : {A : Type ℓ} → Option A → Bool
is_some none = false
is_some (some _) = true

record IsNamed (acc : Named) : Type 0 where
  entries : (n : String) (l : Listener) → lookup n acc.unique ≡ some l → (l.name ≡ n) × IsListener l
  tracked : (n : String) → contains n acc.ordered ≡ is_some (lookup n acc.unique)
  nodup : distinct acc.ordered ≡ true

insert_entries :
    (m : Dict String Listener) (name : String) (l : Listener)
    → ((n : String) (k : Listener) → lookup n m ≡ some k → (k.name ≡ n) × IsListener k)
    → l.name ≡ name
    → IsListener l
    → (n : String) (k : Listener) → lookup n (insert name l m) ≡ some k
    → (k.name ≡ n) × IsListener k
insert_entries m name l h is_name is_l n k e = elim (Bool-cases (name == n)) [
  | inl same ↦
      subst (λ (x : Listener). (x.name ≡ n) × IsListener x)
        (eq_of_some-eq (rw same at (sym (lookup-insert name n l m) ∙ e)))
        (is_name ∙ (eq_iff name n).0 same, is_l)
  | inr other ↦ h n k (rw other at (sym (lookup-insert name n l m) ∙ e))
]

add_if_new-IsNamed :
    (name : String) (l : Listener) (acc : Named)
    → IsNamed acc
    → l.name ≡ name
    → IsListener l
    → IsNamed (add_if_new name l acc)
      × ((k : Listener) × (lookup name (add_if_new name l acc).unique ≡ some k))
unfolding add_if_new
add_if_new-IsNamed name l acc h is_name is_l = elim (Option-cases (lookup name acc.unique)) [
  | inr (k, e) ↦ rw (e, add_if_new) (h, (k, e))
  | inl e ↦
      rw (e, add_if_new)
        (
          record {
            entries = insert_entries acc.unique name l h.entries is_name is_l;
            tracked = λ n. ground (
              arith,
              h.tracked n,
              contains-append n acc.ordered (name ∷ []),
              lookup-insert name n l acc.unique,
              eq_iff n name,
              eq_iff name n,
            );
            nodup = distinct-append_new acc.ordered name h.nodup (h.tracked name ∙ ap is_some e);
          },
          (l, ground (arith, lookup-insert name name l acc.unique, eq_iff name name)),
        )
]

merged-IsNamed :
    (name : String) (refs : List SecretRef) (acc : Named) (l : Listener)
    → IsNamed acc
    → ends_s name ≡ true
    → lookup name acc.unique ≡ some l
    → (acc' : Named) × (merge_refs name refs acc ≡ done acc')
      × IsNamed acc'
      × (acc'.ordered ≡ acc.ordered)
unfolding merge_refs append_refs
merged-IsNamed name refs acc l h s found = elim (h.entries name l found).1 [
  | inl (ends, port, protocol, t) ↦
      let l' : Listener = record l { tls = some (t.0 ++ refs) } in
      (
        record acc { unique = insert name l' acc.unique },
        rw (found, merge_refs) (rw t.1 refl),
        record {
          entries =
              insert_entries acc.unique name l' h.entries (h.entries name l found).0
                (inl (ends, port, protocol, (t.0 ++ refs, refl)));
          tracked = λ n. ground (
            arith,
            h.tracked n,
            h.tracked name,
            lookup-insert name n l' acc.unique,
            eq_iff name n,
          );
          nodup = h.nodup;
        },
        refl,
      )
  | inr (plain, _, _, _) ↦
      absurd (false≢true (sym plain ∙ ap ends_s (h.entries name l found).0 ∙ s))
]

http_IsListener :
    (prefix : String) (host : Option String) → IsListener (http_listener (prefix +++ "http") host)
http_IsListener prefix host = inr (ends_from-http false prefix, refl, refl, refl)

https_IsListener :
    (prefix : String) (host : Option String) → IsListener (https_listener (prefix +++ "https") host)
https_IsListener prefix host = inl (ends_from-https false prefix, refl, refl, ([], refl))

-- The call returns listeners that are named by their names.
abbrev ReturnsNamed : Go Named → Type 0
ReturnsNamed m = (acc' : Named) × (m ≡ done acc') × IsNamed acc'

add_https-ReturnsNamed :
    (prefix : String) (host : Option String) (tls : Option (List SecretRef)) (acc : Named)
    → IsNamed acc
    → ReturnsNamed (add_https prefix host tls acc)
unfolding add_https
add_https-ReturnsNamed prefix host none acc h = (acc, refl, h)
add_https-ReturnsNamed prefix host (some refs) acc h =
    let (named, found) =
      add_if_new-IsNamed (prefix +++ "https") (https_listener (prefix +++ "https") host) acc h refl
        (https_IsListener prefix host) in
    let (acc', e, h', _) =
      merged-IsNamed (prefix +++ "https") refs
        (add_if_new (prefix +++ "https") (https_listener (prefix +++ "https") host) acc) found.0
        named (ends_from-https false prefix) found.1 in
    (acc', e, h')

add_listener-ReturnsNamed :
    (acc : Named) (l : Listener) → IsNamed acc → ReturnsNamed (add_listener acc l)
unfolding add_listener
add_listener-ReturnsNamed acc l h =
    let (named, _) =
      add_if_new-IsNamed (listener_prefix l +++ "http")
        (http_listener (listener_prefix l +++ "http") l.hostname) acc h refl
        (http_IsListener (listener_prefix l) l.hostname) in
    add_https-ReturnsNamed (listener_prefix l) l.hostname l.tls _ named

add_listeners-ReturnsNamed :
    (acc : Named) (ls : List Listener) → IsNamed acc → ReturnsNamed (add_listeners acc ls)
unfolding add_listeners
add_listeners-ReturnsNamed acc [] h = (acc, refl, h)
add_listeners-ReturnsNamed acc (l ∷ ls) h =
    let (acc', e, h') = add_listener-ReturnsNamed acc l h in
    let (acc'', e', h'') = add_listeners-ReturnsNamed acc' ls h' in
    (acc'', ap (λ m. m >>= λ a. add_listeners a ls) e ∙ e', h'')

dedup_refs_old :
    (seen : List String) (r : SecretRef) (refs : List SecretRef)
    → contains r.name seen ≡ true
    → dedup_refs seen (r ∷ refs) ≡ dedup_refs seen refs
unfolding dedup_refs
dedup_refs_old seen r refs h = rw h

dedup_refs_new :
    (seen : List String) (r : SecretRef) (refs : List SecretRef)
    → contains r.name seen ≡ false
    → dedup_refs seen (r ∷ refs) ≡ r ∷ dedup_refs (seen ++ r.name ∷ []) refs
unfolding dedup_refs
dedup_refs_new seen r refs h = rw h

-- The references that stay are the first ones of their names.
dedup_refs_lem :
    (seen : List String) (refs : List SecretRef)
    → dedup_refs seen refs
      ≡ keep
          (λ (r : SecretRef). not (contains r.name seen))
          (firsts_by (λ (r : SecretRef). r.name) refs)
dedup_refs_lem seen [] = unfold dedup_refs in refl
dedup_refs_lem seen (r ∷ refs) = elim (Bool-cases (contains r.name seen)) [
  | inl old ↦
      dedup_refs_old seen r refs old
      ∙ dedup_refs_lem seen refs
      ∙ sym (keep-firsts_by_seen (λ (r : SecretRef). r.name) seen r refs old)
  | inr new ↦
      dedup_refs_new seen r refs new
      ∙ ap (λ l. r ∷ l) (dedup_refs_lem (seen ++ r.name ∷ []) refs)
      ∙ sym (keep-firsts_by_new (λ (r : SecretRef). r.name) seen r refs new)
]

abbrev ref_names : List SecretRef → List String
ref_names refs = map (λ (r : SecretRef). r.name) refs

keep_all : (refs : List SecretRef) → keep (λ r. true) refs ≡ refs
keep_all [] = refl
keep_all (r ∷ refs) = ap (λ l. r ∷ l) (keep_all refs)

dedup_refs-distinct : (refs : List SecretRef) → distinct (ref_names (dedup_refs [] refs)) ≡ true
dedup_refs-distinct refs =
    ap (λ l. distinct (ref_names l)) (dedup_refs_lem [] refs ∙ keep_all _)
    ∙ firsts_by-distinct (λ (r : SecretRef). r.name) refs

-- A listener as it stands in the Gateway: its references have different names.
abbrev pub IsMerged : Listener → Type 0
IsMerged l =
    IsListener l × ((refs : List SecretRef) → l.tls ≡ some refs → distinct (ref_names refs) ≡ true)

dedup_tls-IsMerged :
    (l : Listener) → IsListener l → IsMerged (dedup_tls l) × ((dedup_tls l).name ≡ l.name)
unfolding dedup_tls
dedup_tls-IsMerged l (inl (ends, port, protocol, t)) =
    rw (t.1, dedup_tls)
      (
        (
          inl (ends, port, protocol, (dedup_refs [] t.0, refl)),
          λ refs e.
              subst (λ r. distinct (ref_names r) ≡ true) (eq_of_some-eq e)
                (dedup_refs-distinct t.0),
        ),
        refl,
      )
dedup_tls-IsMerged l (inr (ends, port, protocol, t)) =
    rw (t, dedup_tls) ((inr (ends, port, protocol, t), λ refs e. cc), refl)

abbrev pub names_of : List Listener → List String
names_of ls = map (λ (l : Listener). l.name) ls

collect_lem :
    (acc : Named) (names : List String)
    → IsNamed acc
    → ((n : String) → contains n names ≡ true → is_some (lookup n acc.unique) ≡ true)
    → (ls : List Listener) × (collect acc.unique names ≡ done ls)
      × All IsMerged ls
      × (names_of ls ≡ names)
unfolding collect
collect_lem acc [] h found = ([], refl, tt, refl)
collect_lem acc (n ∷ names) h found = elim (Option-cases (lookup n acc.unique)) [
  | inl missing ↦
      absurd (false≢true (sym (ap is_some missing) ∙ found n (ground (arith, eq_iff n n))))
  | inr (l, e) ↦
      let (ls, is_ls, merged, is_names) = collect_lem acc names h (λ k c. found k (ground arith)) in
      let (here, same) = dedup_tls-IsMerged l (h.entries n l e).1 in
      (
        dedup_tls l ∷ ls,
        rw (e, collect) (rw is_ls refl),
        (here, merged),
        ap₂ (λ a b. a ∷ b) (same ∙ (h.entries n l e).0) is_names,
      )
]

-- The merge of any listeners returns and does not panic. In its result no two listeners have the same name; each is an HTTPS
-- listener on port 443 with TLS or an HTTP listener on port 80 without; and no certificate stands
-- twice at a listener.
pub merge_listeners_lem :
    (ls : List Listener)
    → (merged : List Listener) × (merge_listeners ls ≡ done merged)
      × (distinct (names_of merged) ≡ true)
      × All IsMerged merged
unfolding merge_listeners
merge_listeners_lem ls =
    let (acc, e, h) =
      add_listeners-ReturnsNamed (record { unique = []; ordered = [] }) ls none_named in
    let (merged, is_merged, good, names) =
      collect_lem acc acc.ordered h (λ n c. sym (h.tracked n) ∙ c) in
    (
      merged,
      ap (λ m. m >>= λ (a : Named). collect a.unique a.ordered) e ∙ is_merged,
      ap distinct names ∙ h.nodup,
      good,
    )
  where
    none_named : IsNamed (record { unique = []; ordered = [] })
    none_named = record { entries = λ n l e. cc; tracked = λ n. refl; nodup = refl }
