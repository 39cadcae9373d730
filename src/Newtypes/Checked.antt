-- ===== src/Newtypes/Checked.antt =====
-- safa-core/src/newtypes.rs: what the values have passed, said of their texts.
use Prim.Native.Char.{code}
use Prim.Native.String.{len}
use mathlib.Core.Path.{subst}
use ama.Prelude.{
  ◌⊎◌, Bool-cases, ℕ, ◌≤◌, ◌≡◌, refl, String, true, false, all_chars, ◌||◌, List, [], ◌∷◌, arith,
  string_eq, contains_char, is_empty, inl, inr, nat_beq,
}
use ama.Errors.{ok}
use ama.Newtypes.{
  Unicode, BoundedBytes, bounded_bytes, SafeArg, safe_arg, IntentId, is_alphanumeric, intent_id,
  HttpMethod, to_uppercase, same_codes, parse_method,
}

-- An argument that the shell may be given.
abbrev pub IsSafe : String → Type 0
IsSafe text = (is_empty text ≡ false) × (contains_char 0 text ≡ false)

pub safe_arg-IsSafe :
    (raw : String) (a : SafeArg) → safe_arg raw ≡ ok a → (a.text ≡ raw) × IsSafe raw
unfolding safe_arg
safe_arg-IsSafe raw a h = (ground arith, (ground arith, ground arith))

pub bounded_bytes-le :
    (text : String) (limit : ℕ) (b : BoundedBytes)
    → bounded_bytes text limit ≡ ok b
    → (b.text ≡ text) × (len text ≤ limit)
unfolding bounded_bytes
bounded_bytes-le text limit b h = (ground arith, ground arith)

pub intent_id-text :
    (u : Unicode) (id : String) (i : IntentId) → intent_id u id ≡ ok i → i.text ≡ id
unfolding intent_id
intent_id-text u id i h = ground arith

-- A letter, a digit or an underscore; beyond ASCII, what the tables call alphanumeric.
abbrev pub IsWordChar : Unicode → ℕ → Type 0
IsWordChar u c =
    ((48 ≤ c) × (c ≤ 57))
    ⊎ ((65 ≤ c) × (c ≤ 90))
    ⊎ ((97 ≤ c) × (c ≤ 122))
    ⊎ (c ≡ 95)
    ⊎ ((128 ≤ c) × (u.alphanumeric c ≡ true))

abbrev pub AllWordChars : Unicode → String → Type 0
AllWordChars u String.[] = Unit {0}
AllWordChars u (String.◌∷◌ c s) = IsWordChar u (code c) × AllWordChars u s

all_chars-AllWordChars :
    (u : Unicode) (s : String)
    → all_chars (λ c. is_alphanumeric u c || nat_beq c b'_') s ≡ true
    → AllWordChars u s
unfolding all_chars is_alphanumeric
all_chars-AllWordChars u String.[] h = tt
all_chars-AllWordChars u (String.◌∷◌ c s) h =
    (word_char (code c) (ground arith), all_chars-AllWordChars u s (ground arith))
  where
    word_char : (c : ℕ) → is_alphanumeric u c || nat_beq c b'_' ≡ true → IsWordChar u c
    word_char c h = ground arith

pub intent_id-AllWordChars :
    (u : Unicode) (id : String) (i : IntentId)
    → intent_id u id ≡ ok i
    → (is_empty id ≡ false) × AllWordChars u id
unfolding intent_id
intent_id-AllWordChars u id i h = (ground arith, all_chars-AllWordChars u id (ground arith))

-- The code points of a text.
abbrev pub codes : String → List ℕ
codes String.[] = []
codes (String.◌∷◌ c s) = code c ∷ codes s

same_codes-codes : (ds : List ℕ) (s : String) → same_codes ds s ≡ true → ds ≡ codes s
unfolding same_codes
same_codes-codes [] String.[] h = refl
same_codes-codes [] (String.◌∷◌ c s) h = absurd (ground arith)
same_codes-codes (d ∷ ds) String.[] h = absurd (ground arith)
same_codes-codes (d ∷ ds) (String.◌∷◌ c s) h = ground (arith, same_codes-codes ds s)

-- The name of the method, in capitals.
abbrev pub method_name : HttpMethod → String
method_name HttpMethod.get = "GET"
method_name HttpMethod.post = "POST"

pub parse_method-name :
    (u : Unicode) (s : String) (m : HttpMethod)
    → parse_method u s ≡ ok m
    → to_uppercase u s ≡ codes (method_name m)
unfolding parse_method
parse_method-name u s m h = elim (Bool-cases (same_codes (to_uppercase u s) "GET")) [
  | inl got ↦
      let e : HttpMethod.get ≡ m = ground arith in
      subst (λ x. to_uppercase u s ≡ codes (method_name x)) e
        (same_codes-codes (to_uppercase u s) "GET" got)
  | inr no_ ↦ elim (Bool-cases (same_codes (to_uppercase u s) "POST")) [
    | inl posted ↦
        let e : HttpMethod.post ≡ m = ground arith in
        subst (λ x. to_uppercase u s ≡ codes (method_name x)) e
          (same_codes-codes (to_uppercase u s) "POST" posted)
    | inr neither ↦ absurd (ground arith)
  ]
]
