-- ===== src/Errors.antt =====
-- safa-core/src/errors.rs: the error type of the whole program, and its reading as an HTTP answer.
-- `Result` is Rust's, with `?` as the bind of `do` blocks. A JSON document is the tree that
-- the code writes with `json!`.
use ama.Prelude.{◌⊎◌, inl, inr, ℤ, ℕ, String, ◌≡◌, refl, Bool, Option, none, some, List, [], ◌∷◌}

pub data Result {ℓ} (E : Type 0) (A : Type ℓ) : Type ℓ where
  ok : A → Result E A
  err : E → Result E A

infixl 5 ◌>>=◌ ◌>>◌
abbrev pub ◌>>=◌ {ℓ κ} :
    {E : Type 0} {A : Type ℓ} {B : Type κ} → Result E A → (A → Result E B) → Result E B
ok a >>= f = f a
err e >>= f = err e

abbrev pub ◌>>◌ {ℓ} : {E : Type 0} {B : Type ℓ} → Result E (Unit {0}) → Result E B → Result E B
m >> k = m >>= λ _. k

-- `ok_or`, `ok_or_else`.
abbrev pub ok_or {ℓ} : {E : Type 0} {A : Type ℓ} → Option A → E → Result E A
ok_or none e = err e
ok_or (some a) e = ok a

-- `if refused { return Err(e) }`.
abbrev pub fail_if : {E : Type 0} → Bool → E → Result E (Unit {0})
fail_if Bool.true e = err e
fail_if Bool.false e = ok tt

-- `map_err`
abbrev pub map_err : {E F A : Type 0} → (E → F) → Result E A → Result F A
map_err f (ok a) = ok a
map_err f (err e) = err (f e)

pub map_err-ok :
    {E F A : Type 0} (f : E → F) (r : Result E A) (a : A) → map_err f r ≡ ok a → r ≡ ok a
map_err-ok f (ok b) a h = cc
map_err-ok f (err e) a h = cc

pub ok_or-some {ℓ} :
    {E : Type 0} {A : Type ℓ} (o : Option A) (e : E) (a : A) → ok_or o e ≡ ok a → o ≡ some a
ok_or-some none e a h = cc
ok_or-some (some b) e a h = cc

pub >>=-eq-ok {ℓ κ} :
    {E : Type 0} {A : Type ℓ} {B : Type κ} (m : Result E A) (f : A → Result E B) (b : B)
    → (m >>= f) ≡ ok b
    → (a : A) × (m ≡ ok a) × (f a ≡ ok b)
>>=-eq-ok (ok a) f b h = (a, refl, h)
>>=-eq-ok (err e) f b h = cc

pub Result-cases {ℓ} :
    {E : Type 0} {A : Type ℓ} (r : Result E A) → ((e : E) × (r ≡ err e)) ⊎ ((a : A) × (r ≡ ok a))
Result-cases (err e) = inl (e, refl)
Result-cases (ok a) = inr (a, refl)

pub ok_injective {ℓ} :
    {E : Type 0} {A : Type ℓ} {a b : A} → ◌≡◌ {A = Result E A} (ok a) (ok b) → a ≡ b
ok_injective h = cc

pub data AmaError : Type 0 where
  bad_request : (message : String) → AmaError
  impossible : AmaError
  validation : (error_class message : String) → AmaError
  conflict : (message : String) → AmaError
  payload_too_large : AmaError
  unsupported_media_type : AmaError
  rate_limited : AmaError
  service_unavailable : (message : String) → AmaError

mutual
  pub data Json : Type 0 where
    null : Json
    bool : Bool → Json
    number : ℤ → Json
    string : String → Json
    object : Fields → Json

  pub data Fields : Type 0 where
    end : Fields
    field : String → Json → Fields → Fields

-- `json!` of texts.
abbrev pub texts : List (String × String) → Fields
texts [] = end
texts ((k, v) ∷ fs) = field k (string v) (texts fs)

abbrev pub error_body : String → String → Json
error_body error_class message =
    object (texts (("status", "error") ∷ ("error_class", error_class) ∷ ("message", message) ∷ []))

unfoldable pub http_status_and_body : AmaError → ℕ × Json
http_status_and_body impossible = (403, object (texts (("status", "impossible") ∷ [])))
http_status_and_body (bad_request message) = (400, error_body "bad_request" message)
http_status_and_body (validation error_class message) = (422, error_body error_class message)
http_status_and_body (conflict message) = (409, error_body "conflict" message)
http_status_and_body payload_too_large =
    (413, error_body "payload_too_large" "payload exceeds limit")
http_status_and_body unsupported_media_type =
    (415, error_body "unsupported_media_type" "expected application/json")
http_status_and_body rate_limited = (429, error_body "rate_limited" "rate limit exceeded")
http_status_and_body (service_unavailable message) = (503, error_body "service_unavailable" message)

-- The `Display` text that `thiserror` derives from the attributes.
unfoldable pub display : AmaError → String
display (bad_request message) = Prim.Native.String.◌++◌ "malformed request: " message
display impossible = "impossible"
display (validation error_class message) = Prim.Native.String.◌++◌ "validation error: " message
display (conflict message) = Prim.Native.String.◌++◌ "conflict: " message
display payload_too_large = "payload too large"
display unsupported_media_type = "unsupported media type"
display rate_limited = "rate limit exceeded"
display (service_unavailable message) = Prim.Native.String.◌++◌ "service unavailable: " message
