-- ===== src/Schema.antt =====
-- safa-core/src/schema.rs: the request and response of an action, and the check of its magnitude.
-- The constructors of `Option` stand for absent and present JSON fields.
use Prim.Native.String.{◌++◌}
use ama.Prelude.{
  ℕ, ◌≤◌, String, ◌≡◌, ◌↔◌, Bool, not, ◌&&◌, List, Option, arith, leb, if◌then◌else◌, to_string,
}
use ama.Errors.{Result, ok, err, AmaError, validation, Json}

pub record ActionRequest : Type 0 where
  pub adapter : String
  pub action : String
  pub target : String
  pub magnitude : ℕ
  pub dry_run : Bool
  pub method : Option String
  pub payload : Option String
  pub args : Option (List String)

pub record ActionResponse : Type 0 where
  pub status : String
  pub action_id : String
  pub dry_run : Bool
  pub result : Option Json

unfoldable pub validate_magnitude : ℕ → Result AmaError (Unit {0})
validate_magnitude magnitude =
    if not (leb 1 magnitude && leb magnitude 1000)
    then err
        (validation "invalid_magnitude" ("magnitude must be 1-1000, got " ++ to_string magnitude))
    else ok tt

pub validate_magnitude_iff :
    (magnitude : ℕ)
    → (validate_magnitude magnitude ≡ ok tt) ↔ ((1 ≤ magnitude) × (magnitude ≤ 1000))
unfolding validate_magnitude
validate_magnitude_iff magnitude = (λ h. ground arith, λ h. ground arith)
