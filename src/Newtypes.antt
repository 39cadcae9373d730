-- ===== src/Newtypes.antt =====
-- safa-core/src/newtypes.rs: the types whose values have passed a check. `Unicode` holds the standard
-- library's tables beyond ASCII.
pub mod Url
pub mod Path
pub mod Checked
use Prim.Native.Char.{code}
use Prim.Native.String.{◌++◌, len}
use ama.Prelude.{
  ℕ, ◌-◌, String, Bool, true, false, List, [], ◌∷◌, ◌||◌, ◌&&◌, not, ltb, leb, nat_beq,
  if◌then◌else◌, all_chars, contains_char, is_empty, to_string,
}
use mathlib.Core.List.{◌++◌ as list_append}
use ama.Errors.{Result, ok, err, AmaError, validation}

pub record Unicode : Type 0 where
  pub alphanumeric : ℕ → Bool
  pub uppercase : ℕ → List ℕ

pub record BoundedBytes : Type 0 where
  pub text : String

-- `BoundedBytes::new`
unfoldable pub bounded_bytes : String → ℕ → Result AmaError BoundedBytes
bounded_bytes text max_bytes =
    if ltb max_bytes (len text)
    then err (
        validation "payload_too_large" (
          "payload " ++ (to_string (len text) ++ (" bytes exceeds limit " ++ to_string max_bytes))))
    else ok (record { text = text })

pub record SafeArg : Type 0 where
  pub text : String

-- `SafeArg::new`
unfoldable pub safe_arg : String → Result AmaError SafeArg
safe_arg arg =
    if is_empty arg
    then err (validation "invalid_args" "empty argument")
    else if contains_char 0 arg
    then err (validation "invalid_args" "null byte in argument")
    else ok (record { text = arg })

pub record IntentId : Type 0 where
  pub text : String

-- `char::is_alphanumeric`
unfoldable pub is_alphanumeric : Unicode → ℕ → Bool
is_alphanumeric u c =
    if ltb c 128
    then leb b'0' c && leb c b'9' || leb b'A' c && leb c b'Z' || leb b'a' c && leb c b'z'
    else u.alphanumeric c

-- `IntentId::new`
unfoldable pub intent_id : Unicode → String → Result AmaError IntentId
unfolding is_alphanumeric
intent_id u id =
    if is_empty id
    then err (validation "invalid_target" "empty intent id")
    else if not (all_chars (λ c. is_alphanumeric u c || nat_beq c b'_') id)
    then err (validation "invalid_target" "intent id must be alphanumeric/underscore")
    else ok (record { text = id })

pub data HttpMethod : Type 0 where
  get post : HttpMethod

uppercase_char : Unicode → ℕ → List ℕ
uppercase_char u c =
    if ltb c 128
    then (if leb b'a' c && leb c b'z' then (c - 32) ∷ [] else c ∷ [])
    else u.uppercase c

-- `str::to_uppercase`, as code points.
unfoldable pub to_uppercase : Unicode → String → List ℕ
unfolding uppercase_char
to_uppercase u String.[] = []
to_uppercase u (String.◌∷◌ c s) = list_append (uppercase_char u (code c)) (to_uppercase u s)

unfoldable pub same_codes : List ℕ → String → Bool
same_codes [] String.[] = true
same_codes [] (String.◌∷◌ c s) = false
same_codes (d ∷ ds) String.[] = false
same_codes (d ∷ ds) (String.◌∷◌ c s) = nat_beq d (code c) && same_codes ds s

-- `HttpMethod::parse`
unfoldable pub parse_method : Unicode → String → Result AmaError HttpMethod
unfolding to_uppercase same_codes
parse_method u s =
    if same_codes (to_uppercase u s) "GET"
    then ok get
    else if same_codes (to_uppercase u s) "POST"
    then ok post
    else err (validation "invalid_method" ("unsupported method: " ++ s))
