-- ===== src/Actuator/File/Cleanup/Temp.antt =====
-- safa-core/src/actuator/file.rs: the temporary file of a write is what the clean-up looks for.
use Prim.Native.String.{◌++◌ as text_append}
use mathlib.Core.Path.{subst}
use text.Mathlib.TextLemmas.{append_assoc}
use ama.Prelude.{
  ◌≡◌, ap, ◌∙◌, String, true, false, inl, inr, Bool-cases, Option-cases, ◌↔◌, some, [], ◌∷◌, ◌++◌,
  arith, contains, ends_with, ◌==◌, string_eq,
}
use ama.Prelude.TextLaws.{contains-append, contains_iff, ends_with-append, ends_with_iff}
use ama.Newtypes.Path.{FilePath, file_name}
use ama.Actuator.File.{with_file_name, tmp_name, name_or_empty}
use ama.Actuator.File.Atomic.{with_file_name-last}
use ama.Actuator.File.Cleanup.{is_temp}

file_name-snoc :
    (dir : FilePath) (name : String)
    → (name == "..") ≡ false
    → file_name (dir ++ name ∷ []) ≡ some name
unfolding file_name
file_name-snoc [] name plain = ground arith
file_name-snoc (s ∷ []) name plain = ground arith
file_name-snoc (s ∷ t ∷ dir) name plain = file_name-snoc (t ∷ dir) name plain

is_temp-named :
    (path : FilePath) (name : String)
    → file_name path ≡ some name
    → contains name ".ama." ≡ true
    → ends_with name ".tmp" ≡ true
    → is_temp path ≡ true
unfolding is_temp
is_temp-named path name named inside ending = rw (named, is_temp) (ground (arith, inside, ending))

-- The name of the file has `.ama.` in it and ends in `.tmp`.
pub record IsTemp (path : FilePath) : Type 0 where
  pub name : String
  pub named : file_name path ≡ some name
  pub inside :
      (before : String) × (after : String) × (name ≡ text_append before (text_append ".ama." after))
  pub ending : (stem : String) × (name ≡ text_append stem ".tmp")

pub is_temp_iff : (path : FilePath) → (is_temp path ≡ true) ↔ IsTemp path
unfolding is_temp
is_temp_iff path = (
  λ h. elim (Option-cases (file_name path)) [
    | inl nameless ↦ absurd (ground arith)
    | inr (name, named) ↦ record {
      name = name;
      named = named;
      inside = (contains_iff name ".ama.").0 (ground arith);
      ending = (ends_with_iff name ".tmp").0 (ground arith);
    }
  ],
  λ t.
      is_temp-named path t.name t.named ((contains_iff t.name ".ama.").1 t.inside)
        ((ends_with_iff t.name ".tmp").1 t.ending),
)

is_temp-tmp_name :
    (target : FilePath) (action_id : String)
    → is_temp (with_file_name target (tmp_name target action_id)) ≡ true
unfolding tmp_name
is_temp-tmp_name target action_id =
    let before = name_or_empty (file_name target) in
    let name = tmp_name target action_id in
    let (dir, last) = with_file_name-last target name in
    let inside = contains-append before ".ama." (text_append action_id ".tmp") in
    let joined : text_append (text_append before (text_append ".ama." action_id)) ".tmp" ≡ name =
      append_assoc before (text_append ".ama." action_id) ".tmp"
      ∙ ap (text_append before) (append_assoc ".ama." action_id ".tmp") in
    let ending : ends_with name ".tmp" ≡ true =
      subst (λ t. ends_with t ".tmp" ≡ true) joined
        (ends_with-append (text_append before (text_append ".ama." action_id)) ".tmp") in
    let plain : (name == "..") ≡ false = elim (Bool-cases (name == "..")) [
      | inl dots ↦
          let same : ends_with ".." ".tmp" ≡ true =
            subst (λ t. ends_with t ".tmp" ≡ true) ((string_eq.equal_iff name "..").0 dots)
              ending in
          absurd (unfold ends_with in ground (arith, same))
      | inr other ↦ other
    ] in
    is_temp-named (with_file_name target name) name
      (ap file_name last ∙ file_name-snoc dir name plain) inside ending

-- Whatever the target and the action, the clean-up takes the temporary file of a write for one.
pub tmp_name-IsTemp :
    (target : FilePath) (action_id : String)
    → IsTemp (with_file_name target (tmp_name target action_id))
tmp_name-IsTemp target action_id =
    (is_temp_iff (with_file_name target (tmp_name target action_id))).0
      (is_temp-tmp_name target action_id)
