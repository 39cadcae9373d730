-- ===== src/Actuator/File/Bounded.antt =====
-- safa-core/src/actuator/file.rs: what a read returns.
use mathlib.Core.Path.{subst}
use Prim.Native.String.{len}
use ama.Prelude.{
  ℕ, ◌≤◌, ◌≡◌, refl, sym, ◌∙◌, String, true, some, List, ◌++◌, arith, length, not, ltb,
}
use ama.Errors.{ok, >>=-eq-ok, ok_injective, ok_or, ok_or-some, map_err, map_err-ok, fail_if}
use ama.Newtypes.Path.{FilePath, WorkspacePath}
use ama.Actuator.File.{FileReadResult, Metadata, Disk, min, verify_no_symlinks, file_read}

-- What the standard library promises of a read: `read_exact` fills its buffer with the first bytes of the file,
-- and decoding keeps the number of bytes.
pub record Reads {F : Type 0} (disk : Disk F) : Type 0 where
  pub contents : F → FilePath → List ℕ
  pub read_exact_ok :
      (f : F) (path : FilePath) (n : ℕ) (bytes : List ℕ)
      → disk.read_exact f path n ≡ ok bytes
      → (length bytes ≡ n) × (rest : List ℕ) × (contents f path ≡ bytes ++ rest)
  pub from_utf8-len :
      (bytes : List ℕ) (s : String) → disk.from_utf8 bytes ≡ some s → len s ≡ length bytes

-- The file is a regular one of `total_bytes`, of which the first `max_bytes` at most are returned.
pub record Bounded {F : Type 0} (disk : Disk F) (reads : Reads disk) (path : WorkspacePath)
    (max_bytes : ℕ) (f : F) (r : FileReadResult) : Type 0 where
  pub meta : Metadata
  pub stat : disk.symlink_metadata f path.canonical ≡ ok meta
  pub regular : meta.is_file ≡ true
  pub no_symlinks : verify_no_symlinks disk f path.canonical ≡ ok tt
  pub bytes : List ℕ
  pub rest : List ℕ
  pub first : reads.contents f path.canonical ≡ bytes ++ rest
  pub decoded : disk.from_utf8 bytes ≡ some r.content
  pub total : r.total_bytes ≡ meta.len
  pub returned : r.bytes_returned ≡ min r.total_bytes max_bytes
  pub within : r.bytes_returned ≤ max_bytes
  pub length_told : (r.bytes_returned ≡ len r.content) × (r.bytes_returned ≡ length bytes)
  pub truncated : r.truncated ≡ ltb max_bytes r.total_bytes

min-le : (a b : ℕ) → min a b ≤ b
min-le a b = ground arith

-- A successful read is of a regular file behind no symbolic link; it returns the text of the first
-- `max_bytes` bytes of that file, or of as many as its metadata counts if they are fewer, tells how many they
-- are, and is marked truncated exactly if the metadata counts more.
pub file_read-Bounded :
    {F : Type 0} (disk : Disk F) (reads : Reads disk) (path : WorkspacePath) (max_bytes : ℕ) (f : F)
    (r : FileReadResult)
    → file_read disk path max_bytes f ≡ ok r
    → Bounded disk reads path max_bytes f r
unfolding file_read
file_read-Bounded disk reads path max_bytes f r h =
    let p = path.canonical in
    let linked = >>=-eq-ok (verify_no_symlinks disk f p) _ r h in
    let there = >>=-eq-ok (fail_if (not (disk.exists f p)) _) _ r linked.2 in
    let meta = >>=-eq-ok (map_err _ (disk.symlink_metadata f p)) _ r there.2 in
    let regular = >>=-eq-ok (fail_if (not meta.0.is_file) _) _ r meta.2 in
    let opened = >>=-eq-ok (map_err _ (disk.open_file f p)) _ r regular.2 in
    let buf = >>=-eq-ok (map_err _ (disk.read_exact f p (min meta.0.len max_bytes))) _ r opened.2 in
    let content = >>=-eq-ok (ok_or (disk.from_utf8 buf.0) _) _ r buf.2 in
    let (filled, rest, first) =
      reads.read_exact_ok f p (min meta.0.len max_bytes) buf.0
        (map_err-ok _ (disk.read_exact f p (min meta.0.len max_bytes)) buf.0 buf.1) in
    let decoded = ok_or-some (disk.from_utf8 buf.0) _ content.0 content.1 in
    let told : len content.0 ≡ length buf.0 = reads.from_utf8-len buf.0 content.0 decoded in
    let size : len content.0 ≡ min meta.0.len max_bytes = told ∙ filled in
    subst (Bounded disk reads path max_bytes f) (ok_injective content.2) (record {
      meta = meta.0;
      stat = map_err-ok _ (disk.symlink_metadata f p) meta.0 meta.1;
      regular = ground (arith, regular.1);
      no_symlinks = linked.1;
      bytes = buf.0;
      rest = rest;
      first = first;
      decoded = decoded;
      total = refl;
      returned = size;
      within = subst (λ n. n ≤ max_bytes) (sym size) (min-le meta.0.len max_bytes);
      length_told = (refl, told);
      truncated = refl;
    })
