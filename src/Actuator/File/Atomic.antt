-- ===== src/Actuator/File/Atomic.antt =====
-- safa-core/src/actuator/file.rs: a write is done in full or not at all.
use Prim.Native.String.{◌++◌ as text_append, len}
use text.Mathlib.TextPositions.{len-append}
use ama.Prelude.{
  ℕ, ◌≤◌, ◌≡◌, ◌≢◌, refl, sym, ap, ◌∙◌, ◌⊎◌, inl, inr, String, Option, some, [], ◌∷◌, ◌++◌, arith,
  Option-cases, Bool-cases, string_eq,
}
use mathlib.Core.Path.{subst}
use ama.Errors.{Result-cases, Result, ok, err, AmaError, service_unavailable}
use ama.Newtypes.{BoundedBytes}
use ama.Newtypes.Path.{FilePath, WorkspacePath, parent, file_name}
use ama.Actuator.File.{
  FileWriteResult, Disk, name_or_empty, with_file_name, tmp_name, check_target, make_parent,
  replace, file_write,
}

-- What `std::fs` promises of the contents of files, for paths that are no links to each other: each call
-- changes only what it is about, and a renaming is done in full or not at all.
pub record Behaves {F : Type 0} (disk : Disk F) : Type 0 where
  pub content : F → FilePath → Option String
  pub create_kept : (p q : FilePath) (f : F) → content (disk.create_dir_all p f).1 q ≡ content f q
  pub permit_kept :
      (p q : FilePath) (mode : ℕ) (f : F)
      → content (disk.set_permissions p mode f).1 q ≡ content f q
  pub write_ok :
      (p : FilePath) (t : String) (f : F)
      → (disk.write p t f).0 ≡ ok tt
      → content (disk.write p t f).1 p ≡ some t
  pub write_other :
      (p q : FilePath) (t : String) (f : F) → q ≢ p → content (disk.write p t f).1 q ≡ content f q
  pub remove_other :
      (p q : FilePath) (f : F) → q ≢ p → content (disk.remove_file p f).1 q ≡ content f q
  pub rename_ok :
      (p q : FilePath) (f : F)
      → (disk.rename p q f).0 ≡ ok tt
      → content (disk.rename p q f).1 q ≡ content f p
  pub rename_err :
      (p q r : FilePath) (f : F) (e : String)
      → (disk.rename p q f).0 ≡ err e
      → content (disk.rename p q f).1 r ≡ content f r

snoc_ne : (p : FilePath) (x : String) → p ++ x ∷ [] ≢ p
snoc_ne [] x h = ground arith
snoc_ne (s ∷ p) x h = snoc_ne p x (cc (h))

snoc-injective : (p q : FilePath) (x y : String) → p ++ x ∷ [] ≡ q ++ y ∷ [] → x ≡ y
snoc-injective [] [] x y h = cc (h)
snoc-injective [] (t ∷ []) x y h = absurd (ground arith)
snoc-injective [] (t ∷ u ∷ q) x y h = absurd (ground arith)
snoc-injective (s ∷ []) [] x y h = absurd (ground arith)
snoc-injective (s ∷ u ∷ p) [] x y h = absurd (ground arith)
snoc-injective (s ∷ p) (t ∷ q) x y h = snoc-injective p q x y (cc (h))

-- The last component of a path that has a file name.
file_name-last :
    (p : FilePath) (n : String) → file_name p ≡ some n → (dir : FilePath) × (p ≡ dir ++ n ∷ [])
unfolding file_name
file_name-last [] n h = cc
file_name-last (s ∷ []) n h = ([], ground arith)
file_name-last (s ∷ t ∷ p) n h =
    let rest = file_name-last (t ∷ p) n h in (s ∷ rest.0, ap (λ q. s ∷ q) rest.1)

longer : (n x : String) → 1 ≤ len x → text_append n x ≢ n
longer n x h e = omega (arith, h, len-append n x, ap len e)

suffix_len : (action_id : String) → 1 ≤ len (text_append ".ama." (text_append action_id ".tmp"))
suffix_len action_id = omega (arith, len-append ".ama." (text_append action_id ".tmp"))

pub with_file_name-last :
    (target : FilePath) (name : String)
    → (dir : FilePath) × (with_file_name target name ≡ dir ++ name ∷ [])
unfolding with_file_name
with_file_name-last target name = elim (Option-cases (file_name target)) [
  | inl missing ↦ (target, ground arith)
  | inr (n, found) ↦ elim (Option-cases (parent target)) [
    | inl top ↦ ([], ground arith)
    | inr (dir, above) ↦ (dir, ground arith)
  ]
]

with_file_name-differs :
    (target : FilePath) (name : String)
    → ((n : String) → file_name target ≡ some n → name ≢ n)
    → target ≢ with_file_name target name
unfolding with_file_name
with_file_name-differs target name other h = elim (Option-cases (file_name target)) [
  | inl missing ↦
      let same : with_file_name target name ≡ target ++ name ∷ [] = ground arith in
      snoc_ne target name (sym (h ∙ same))
  | inr (n, found) ↦
      let last = file_name-last target n found in
      let new_last = with_file_name-last target name in
      other n found (snoc-injective new_last.0 last.0 name n (sym new_last.1 ∙ sym h ∙ last.1))
]

tmp-differs :
    (target : FilePath) (action_id : String)
    → target ≢ with_file_name target (tmp_name target action_id)
unfolding tmp_name
tmp-differs target action_id =
    with_file_name-differs target (tmp_name target action_id) (λ n found e.
      longer n _ (suffix_len action_id) (
        subst
          (λ o.
            text_append (name_or_empty o) (text_append ".ama." (text_append action_id ".tmp")) ≡ n)
          found e))

module _ {F : Type 0} (disk : Disk F) (b : Behaves disk) where
  -- The file has its new content, and the result says so; or it has its old one, and the result is an error.
  abbrev pub AllOrNothing : FilePath → String → F → Result AmaError FileWriteResult × F → Type 0
  AllOrNothing target text f out =
      ((b.content out.1 target ≡ some text) × (out.0 ≡ ok (record { bytes_written = len text })))
      ⊎ ((b.content out.1 target ≡ b.content f target) × (e : AmaError) × (out.0 ≡ err e))

  replace-AllOrNothing :
      (tmp_path target : FilePath) (text : String) (f : F)
      → target ≢ tmp_path
      → AllOrNothing target text f (replace disk tmp_path target text f)
  unfolding replace
  replace-AllOrNothing tmp_path target text f other =
      let f1 = (disk.write tmp_path text f).1 in
      let f2 = (disk.set_permissions tmp_path 0o644 f1).1 in
      let f3 = (disk.rename tmp_path target f2).1 in
      let kept =
        b.permit_kept tmp_path target 0o644 f1 ∙ b.write_other tmp_path target text f other in
      elim (Result-cases (disk.write tmp_path text f).0) [
        | inl (e, failed) ↦ inr (
          rw (failed, replace)
              (b.remove_other tmp_path target f1 other
                ∙ b.write_other tmp_path target text f other),
          service_unavailable (text_append "write failed: " e),
          rw (failed, replace) refl,
        )
        | inr (u, written) ↦ elim (Result-cases (disk.rename tmp_path target f2).0) [
          | inl (e, failed) ↦ inr (
            rw (written, failed, replace)
                (b.remove_other tmp_path target f3 other
                  ∙ b.rename_err tmp_path target target f2 e failed
                  ∙ kept),
            service_unavailable (text_append "atomic rename failed: " e),
            rw (written, failed, replace) refl,
          )
          | inr (v, renamed) ↦ inl (
            rw (written, renamed, replace)
                (b.rename_ok tmp_path target f2 renamed
                  ∙ b.permit_kept tmp_path tmp_path 0o644 f1
                  ∙ b.write_ok tmp_path text f written),
            rw (written, renamed, replace) refl,
          )
        ]
      ]

  make_parent-kept :
      (target p : FilePath) (f : F) → b.content (make_parent disk target f).1 p ≡ b.content f p
  unfolding make_parent
  make_parent-kept target p f = elim (Option-cases (parent target)) [
    | inl top ↦ rw (top, make_parent) refl
    | inr (dir, above) ↦ elim (Bool-cases (disk.exists f dir)) [
      | inl there ↦ rw (above, there, make_parent) refl
      | inr absent ↦ elim (Result-cases (disk.create_dir_all dir f).0) [
        | inl (e, failed) ↦ rw (above, absent, failed, make_parent) (b.create_kept dir p f)
        | inr (u, made) ↦
            rw (above, absent, made, make_parent)
              (b.permit_kept dir p 0o755 (disk.create_dir_all dir f).1 ∙ b.create_kept dir p f)
      ]
    ]
  ]

  -- After a write, whichever of its steps fails, the target has its new content in full and the number
  -- of bytes is reported, or it has its old content and an error is reported.
  pub file_write-AllOrNothing :
      (path : WorkspacePath) (content : BoundedBytes) (action_id : String) (f : F)
      → AllOrNothing path.canonical content.text f (file_write disk path content action_id f)
  unfolding file_write
  file_write-AllOrNothing path content action_id f =
      let target = path.canonical in
      let tmp_path = with_file_name target (tmp_name target action_id) in
      let made = make_parent disk target f in
      let kept = make_parent-kept target target f in
      elim (Result-cases (check_target disk f target)) [
        | inl (e, failed) ↦ inr (rw (failed, file_write) refl, e, rw (failed, file_write) refl)
        | inr (u, passed) ↦ elim (Result-cases made.0) [
          | inl (e, failed) ↦
              inr (rw (passed, failed, file_write) kept, e, rw (passed, failed, file_write) refl)
          | inr (v, ready) ↦
              elim (replace-AllOrNothing tmp_path target content.text made.1
                (tmp-differs target action_id)) [
                  | inl (new_, said) ↦
                      inl (rw (passed, ready, file_write) new_, rw (passed, ready, file_write) said)
                  | inr (old, e, said) ↦ inr (
                    rw (passed, ready, file_write) (old ∙ kept),
                    e,
                    rw (passed, ready, file_write) said,
                  )
                ]
        ]
      ]
