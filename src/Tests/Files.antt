-- ===== src/Tests/Files.antt =====
-- safa-core/src/actuator/file.rs: a write and a read on a disk that maps paths to texts.
use mathlib.Core.Path.{subst}
use Prim.Native.String.{len}
use Prim.Native.String.len.{cons as len-cons}
use text.Mathlib.TextEquality.{eq_iff}
use ama.Prelude.{
  ℕ, zero, suc, ◌≡◌, ◌≢◌, ◌↔◌, ◌≤◌, ◌++◌, leb, ap, refl, String, Bool, true, false, Option, none,
  some, List, [], ◌∷◌, arith, length, string_eq, ◌==◌, if◌then◌else◌, Bool-cases, inl, inr,
}
use ama.Errors.{ok, err}
use ama.Newtypes.Path.{FilePath, WorkspacePath}
use ama.Actuator.File.{Disk, file_write, file_read}
use ama.Actuator.File.Atomic.{Behaves, AllOrNothing, file_write-AllOrNothing}
use ama.Actuator.File.Bounded.{Reads, Bounded, file_read-Bounded}
use ama.Tests.Fixtures.{tally}

abbrev pub same_path : FilePath → FilePath → Bool
same_path [] [] = true
same_path (s ∷ p) [] = false
same_path [] (t ∷ q) = false
same_path (s ∷ p) (t ∷ q) = let rest = same_path p q in if s == t then rest else false

same_path_iff : (p q : FilePath) → (same_path p q ≡ true) ↔ (p ≡ q)
same_path_iff [] [] = ground arith
same_path_iff (s ∷ p) [] = ground arith
same_path_iff [] (t ∷ q) = ground arith
same_path_iff (s ∷ p) (t ∷ q) = ground (arith, eq_iff s t, same_path_iff p q)

abbrev pub Store : Type 0
Store = FilePath → Option String

abbrev put : FilePath → Option String → Store → Store
put p text f q = if same_path q p then text else f q

pub put_same : (p : FilePath) (text : Option String) (f : Store) → put p text f p ≡ text
put_same p text f = rw ((same_path_iff p p).1 refl) refl

pub put_other : (p q : FilePath) (text : Option String) (f : Store) → q ≢ p → put p text f q ≡ f q
put_other p q text f other = elim (Bool-cases (same_path q p)) [
  | inl same ↦ absurd (other ((same_path_iff q p).0 same))
  | inr differ ↦ rw differ refl
]

abbrev pub letters : ℕ → List ℕ
letters zero = []
letters (suc n) = 97 ∷ letters n

pub length-letters : (n : ℕ) → length (letters n) ≡ n
length-letters zero = refl
length-letters (suc n) = omega (arith, length-letters n)

letters_rest : (n m : ℕ) → n ≤ m → (rest : List ℕ) × (letters m ≡ letters n ++ rest)
letters_rest zero m h = (letters m, refl)
letters_rest (suc n) zero h = absurd (omega (arith, h))
letters_rest (suc n) (suc m) h =
    let w = letters_rest n m (omega (arith, h)) in (w.0, ap (λ b. 97 ∷ b) w.1)

pub len-tally : (n : ℕ) → len (tally n "") ≡ n
len-tally zero = refl
len-tally (suc n) = omega (arith, len-tally n, len-cons "a" (tally n ""))

abbrev there : Option String → Bool
there none = false
there (some t) = true

abbrev pub disk : Disk Store
disk = record {
  exists = λ f p. there (f p);
  symlink_metadata = λ f p. ok (record { is_file = true; is_symlink = false; len = 5 });
  create_dir_all = λ p f. (ok tt, f);
  set_permissions = λ p mode f. (ok tt, f);
  write = λ p t f. (ok tt, put p (some t) f);
  remove_file = λ p f. (ok tt, put p none f);
  rename = λ p q f. (ok tt, put q (f p) f);
  open_file = λ f p. ok tt;
  read_exact = λ f p n. if leb n 5 then ok (letters n) else err "unexpected end of file";
  from_utf8 = λ bytes. some (tally (length bytes) "");
  display = λ p. "";
}

abbrev pub behaves : Behaves disk
behaves = record {
  content = λ f p. f p;
  create_kept = λ p q f. refl;
  permit_kept = λ p q mode f. refl;
  write_ok = λ p t f h. put_same p (some t) f;
  write_other = λ p q t f other. put_other p q (some t) f other;
  remove_other = λ p q f other. put_other p q none f other;
  rename_ok = λ p q f h. put_same q (f p) f;
  rename_err = λ p q r f e h. absurd (ground arith);
}

first_letters :
    (f : Store) (path : FilePath) (n : ℕ) (bytes : List ℕ)
    → disk.read_exact f path n ≡ ok bytes
    → (length bytes ≡ n) × (rest : List ℕ) × (letters 5 ≡ bytes ++ rest)
first_letters f path n bytes h = elim (Bool-cases (leb n 5)) [
  | inl short ↦
      let same : letters n ≡ bytes = ground arith in
      let w = letters_rest n 5 (ground arith) in
      (
        subst (λ b. length b ≡ n) same (length-letters n),
        w.0,
        subst (λ b. letters 5 ≡ b ++ w.0) same w.1,
      )
  | inr long ↦ absurd (ground arith)
]

reads : Reads disk
reads = record {
  contents = λ f path. letters 5;
  read_exact_ok = λ f path n bytes h. first_letters f path n bytes h;
  from_utf8-len = λ bytes s h. ground (arith, len-tally (length bytes));
}

abbrev path : WorkspacePath
path = record { canonical = "w" ∷ "ann" ∷ "a" ∷ []; relative = "a" }

abbrev pub old : Store
old q = if same_path q ("w" ∷ "ann" ∷ "a" ∷ []) then some "old" else none

file_write-AllOrNothing_example :
    AllOrNothing disk behaves
      ("w" ∷ "ann" ∷ "a" ∷ [])
      "new"
      old
      (file_write disk path (record { text = "new" }) "1" old)
file_write-AllOrNothing_example =
    file_write-AllOrNothing disk behaves path (record { text = "new" }) "1" old

file_read-Bounded_example :
    Bounded disk reads path 3 old
      (record { content = "aaa"; bytes_returned = 3; total_bytes = 5; truncated = true })
unfolding file_read
file_read-Bounded_example =
    file_read-Bounded disk reads path 3 old
      (record { content = "aaa"; bytes_returned = 3; total_bytes = 5; truncated = true }) refl
