-- ===== src/Newtypes/Url.antt =====
-- safa-core/src/newtypes.rs: `AllowlistedUrl` and its glob patterns.
pub mod Glob
use Prim.Native.Char.{Char, code}
use Prim.Native.String.{◌++◌}
use ama.Prelude.{
  ℕ, String, Bool, true, false, Option, none, some, List, [], ◌∷◌, ◌||◌, not, nat_beq,
  if◌then◌else◌, ◌==◌, string_eq, strip_prefix, starts_with, contains_char,
}
use ama.Errors.{Result, ok, err, AmaError, validation}
use ama.Config.{AllowlistEntry}

pub record AllowlistedUrl : Type 0 where
  pub url : String

abbrev pub onto_some : Char → Option String → Option String
onto_some c none = none
onto_some c (some s) = some (String.◌∷◌ c s)

-- `strip_suffix` of one character.
unfoldable pub strip_suffix : String → ℕ → Option String
strip_suffix String.[] c = none
strip_suffix (String.◌∷◌ d String.[]) c = if nat_beq (code d) c then some String.[] else none
strip_suffix (String.◌∷◌ d (String.◌∷◌ e s)) c = onto_some d (strip_suffix (String.◌∷◌ e s) c)

unfoldable pub glob_match : String → String → Bool
unfolding strip_suffix
glob_match pattern_text url = elim (strip_suffix pattern_text b'*') [
  | some stem ↦ starts_with url stem
  | none ↦ url == pattern_text
]

-- `allowlist.iter().any(..)`
unfoldable pub any_match : List AllowlistEntry → String → Bool
unfolding glob_match
any_match [] url = false
any_match (entry ∷ allowlist) url = glob_match entry.pattern_text url || any_match allowlist url

-- The `if let` of the userinfo check.
unfoldable pub has_userinfo : String → Bool
has_userinfo url = elim (strip_prefix url "https://") [
  | some authority ↦ contains_char b'@' authority
  | none ↦ false
]

-- `AllowlistedUrl::new`
unfoldable pub allowlisted_url : String → List AllowlistEntry → Result AmaError AllowlistedUrl
unfolding has_userinfo any_match
allowlisted_url url allowlist =
    if not (starts_with url "https://")
    then err (validation "invalid_target" "only https URLs allowed")
    else if has_userinfo url
    then err (validation "invalid_target" "userinfo in URL forbidden")
    else if contains_char b'#' url
    then err (validation "invalid_target" "fragments in URL forbidden")
    else if not (any_match allowlist url)
    then err (validation "invalid_target" "URL not in allowlist")
    else ok (record { url = url })
