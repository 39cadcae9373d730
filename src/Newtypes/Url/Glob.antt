-- ===== src/Newtypes/Url/Glob.antt =====
-- safa-core/src/newtypes.rs: which URLs the allowlist lets through, as equations between texts.
use Prim.Native.Char.{Char, code}
use Prim.Native.String.{◌++◌}
use text.Mathlib.TextLemmas.{cons-append, nil-append}
use text.Mathlib.TextEquality.{Char-path}
use ama.Prelude.{
  ◌≢◌, String, ◌≡◌, refl, ◌↔◌, ◌⊎◌, inl, inr, true, false, some, List, [], ◌∷◌, arith, nat_beq,
  string_eq, contains_char, Bool-cases, Option-cases,
}
use text.Mathlib.TextEquality.{eq_iff}
use ama.Prelude.TextLaws.{starts_with_iff, strip_prefix_iff}
use ama.Errors.{ok}
use ama.Config.{AllowlistEntry}
use ama.Newtypes.Url.{strip_suffix, glob_match, any_match, has_userinfo, allowlisted_url}

abbrev star : Char
star = Char.char b'*' tt

strip_suffix-star :
    (stem : String) → strip_suffix (stem ++ String.◌∷◌ star String.[]) b'*' ≡ some stem
unfolding strip_suffix
strip_suffix-star String.[] = refl
strip_suffix-star (String.◌∷◌ c String.[]) = rw (cons-append c String.[] "*") refl
strip_suffix-star (String.◌∷◌ c (String.◌∷◌ d s)) =
    rw (cons-append c (String.◌∷◌ d s) _, cons-append d s _)
      (ground
        (arith, strip_suffix-star (String.◌∷◌ d s), cons-append d s (String.◌∷◌ star String.[])))

star-strip_suffix :
    (p stem : String) → strip_suffix p b'*' ≡ some stem → p ≡ stem ++ String.◌∷◌ star String.[]
unfolding strip_suffix
star-strip_suffix String.[] stem h = cc
star-strip_suffix (String.◌∷◌ c String.[]) stem h = elim (Bool-cases (nat_beq (code c) b'*')) [
  | inl e ↦
      let same : c ≡ star = Char-path c star (ground arith) in
      let none_left : some String.[] ≡ some stem = rw e at h in cc (same, none_left, nil-append "*")
  | inr e ↦ absurd (ground arith)
]
star-strip_suffix (String.◌∷◌ c (String.◌∷◌ d s)) stem h =
    elim (Option-cases (strip_suffix (String.◌∷◌ d s) b'*')) [
      | inl e ↦ absurd (ground arith)
      | inr (t, e) ↦ ground (
        arith,
        star-strip_suffix (String.◌∷◌ d s) t e,
        cons-append c t (String.◌∷◌ star String.[]),
      )
    ]

-- A pattern that ends in a star matches the URLs that begin with the rest of it; any other pattern
-- matches itself alone.
pub data Matches (pattern_text url : String) : Type 0 where
  wildcard :
      (stem rest : String)
      → pattern_text ≡ stem ++ "*"
      → url ≡ stem ++ rest
      → Matches pattern_text url
  exact :
      ((stem : String) → pattern_text ≢ stem ++ "*") → url ≡ pattern_text → Matches pattern_text url

glob_match-Matches : (p url : String) → glob_match p url ≡ true → Matches p url
unfolding glob_match
glob_match-Matches p url h = elim (Option-cases (strip_suffix p b'*')) [
  | inl e ↦ exact (λ stem q. ground (arith, strip_suffix-star stem)) (ground (arith, eq_iff url p))
  | inr (stem, e) ↦
      let w : (r : String) × (url ≡ stem ++ r) = (starts_with_iff url stem).0 (ground arith) in
      wildcard stem w.0 (star-strip_suffix p stem e) w.1
]

Matches-glob_match : (p url : String) → Matches p url → glob_match p url ≡ true
unfolding glob_match
Matches-glob_match p url (wildcard stem rest e f) =
    ground (arith, strip_suffix-star stem, (starts_with_iff url stem).1 (rest, f))
Matches-glob_match p url (exact plain e) = elim (Option-cases (strip_suffix p b'*')) [
  | inl f ↦ ground (arith, eq_iff url p)
  | inr (stem, f) ↦ absurd (plain stem (star-strip_suffix p stem f))
]

-- Some entry of the allowlist matches.
abbrev pub Listed : List AllowlistEntry → String → Type 0
Listed [] url = ⊥
Listed (entry ∷ allowlist) url = Matches entry.pattern_text url ⊎ Listed allowlist url

any_match-Listed :
    (allowlist : List AllowlistEntry) (url : String)
    → any_match allowlist url ≡ true
    → Listed allowlist url
unfolding any_match
any_match-Listed [] url h = cc
any_match-Listed (entry ∷ allowlist) url h = elim (Bool-cases (glob_match entry.pattern_text url)) [
  | inl e ↦ inl (glob_match-Matches entry.pattern_text url e)
  | inr e ↦ inr (any_match-Listed allowlist url (ground arith))
]

Listed-any_match :
    (allowlist : List AllowlistEntry) (url : String)
    → Listed allowlist url
    → any_match allowlist url ≡ true
unfolding any_match
Listed-any_match (entry ∷ allowlist) url (inl m) =
    ground (arith, Matches-glob_match entry.pattern_text url m)
Listed-any_match (entry ∷ allowlist) url (inr l) = ground (arith, Listed-any_match allowlist url l)
Listed-any_match [] url l = absurd l

pub record IsAllowed (url : String) (allowlist : List AllowlistEntry) : Type 0 where
  pub https : (rest : String) × (url ≡ "https://" ++ rest) × (contains_char b'@' rest ≡ false)
  pub no_fragment : contains_char b'#' url ≡ false
  pub listed : Listed allowlist url

-- The constructor accepts exactly the HTTPS URLs with no `@` after the scheme and no `#` that match, as they
-- are written, an entry of the allowlist. It neither normalizes the URL nor looks at its port, which
-- the design asks for, and keeps the URL as it is.
pub allowlisted_url_iff :
    (url : String) (allowlist : List AllowlistEntry)
    → (allowlisted_url url allowlist ≡ ok (record { url = url })) ↔ IsAllowed url allowlist
unfolding allowlisted_url has_userinfo
allowlisted_url_iff url allowlist = (
  λ h.
      let w : (r : String) × (url ≡ "https://" ++ r) =
        (starts_with_iff url "https://").0 (ground arith) in
      record {
        https = (w.0, w.1, ground (arith, (strip_prefix_iff url "https://" w.0).1 w.1));
        no_fragment = ground arith;
        listed = any_match-Listed allowlist url (ground arith);
      },
  λ a. ground (
    arith,
    (starts_with_iff url "https://").1 (a.https.0, a.https.1),
    (strip_prefix_iff url "https://" a.https.0).1 a.https.1,
    a.https.2,
    a.no_fragment,
    Listed-any_match allowlist url a.listed,
  ),
)
