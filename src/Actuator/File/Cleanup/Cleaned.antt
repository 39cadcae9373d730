-- ===== src/Actuator/File/Cleanup/Cleaned.antt =====
-- safa-core/src/actuator/file.rs: the clean-up removes the temporary files under the workspace, and no other.
use ama.Prelude.{
  ℕ, suc, ◌+◌, ◌<◌, ◌≡◌, ◌↔◌, refl, ap, ◌∙◌, ◌⊎◌, inl, inr, String, true, false, some, List, [],
  ◌∷◌, arith, Bool-cases,
}
use mathlib.Core.Path.{subst, sym}
use ama.Errors.{ok, err, Result-cases}
use ama.Newtypes.Path.{FilePath}
use ama.Actuator.File.{Disk, with_file_name, tmp_name}
use ama.Actuator.File.Cleanup.{
  Tree, walkdir, is_temp, succeeded, remove_temps, cleanup_orphan_temps,
}
use ama.Actuator.File.Cleanup.Walk.{Among, Under, walkdir_iff}
use ama.Actuator.File.Cleanup.Ends.{Ranked, walkdir-Ends}
use ama.Actuator.File.Cleanup.Temp.{IsTemp, is_temp_iff, tmp_name-IsTemp}

module _ {F : Type 0} (disk : Disk F) where
  -- The paths are removed one after the other, and nothing else is done; the number is that of the removals
  -- that succeed.
  pub data Removals : List FilePath → F → ℕ × F → Type 0 where
    finished : (f : F) → Removals [] f (0, f)
    removed :
        (p : FilePath) (ps : List FilePath) (f after : F) (count : ℕ)
        → (disk.remove_file p f).0 ≡ ok tt
        → Removals ps (disk.remove_file p f).1 (count, after)
        → Removals (p ∷ ps) f (suc count, after)
    failed :
        (p : FilePath) (ps : List FilePath) (f : F) (out : ℕ × F) (e : String)
        → (disk.remove_file p f).0 ≡ err e
        → Removals ps (disk.remove_file p f).1 out
        → Removals (p ∷ ps) f out

  record Swept (paths : List FilePath) (n : ℕ) (f : F) : Type 0 where
    temps : List FilePath
    count : ℕ
    after : F
    removals : Removals temps f (count, after)
    result : remove_temps disk paths n f ≡ (n + count, after)
    exactly : (p : FilePath) → Among p temps ↔ (Among p paths × IsTemp p)

  Among-cons_first :
      (path p : FilePath) (paths temps : List FilePath)
      → is_temp path ≡ true
      → Among p temps ↔ (Among p paths × IsTemp p)
      → Among p (path ∷ temps) ↔ (Among p (path ∷ paths) × IsTemp p)
  Among-cons_first path p paths temps temp rest = (
    λ m. elim m [
      | inl same ↦ (inl same, subst IsTemp same ((is_temp_iff path).0 temp))
      | inr later ↦ let w = rest.0 later in (inr w.0, w.1)
    ],
    λ w. elim w.0 [ inl same ↦ inl same | inr later ↦ inr (rest.1 (later, w.1)) ],
  )

  Among-cons_later :
      (path p : FilePath) (paths temps : List FilePath)
      → is_temp path ≡ false
      → Among p temps ↔ (Among p paths × IsTemp p)
      → Among p temps ↔ (Among p (path ∷ paths) × IsTemp p)
  Among-cons_later path p paths temps plain rest = (
    λ m. let w = rest.0 m in (inr w.0, w.1),
    λ w. elim w.0 [
      | inl same ↦
          let temp = (is_temp_iff path).1 (subst IsTemp (sym same) w.1) in
          absurd (ground (arith, temp, plain))
      | inr later ↦ rest.1 (later, w.1)
    ],
  )

  remove_temps-Swept : (paths : List FilePath) (n : ℕ) (f : F) → Swept paths n f
  unfolding remove_temps
  remove_temps-Swept [] n f = record {
    temps = [];
    count = 0;
    after = f;
    removals = finished f;
    result = ap (λ k. (k, f)) (omega arith);
    exactly = λ p. (λ never. absurd never, λ w. absurd w.0);
  }
  remove_temps-Swept (path ∷ paths) n f = elim (Bool-cases (is_temp path)) [
    | inr plain ↦
        let rest = remove_temps-Swept paths n f in
        record {
          temps = rest.temps;
          count = rest.count;
          after = rest.after;
          removals = rest.removals;
          result = rw (plain, remove_temps) rest.result;
          exactly = λ p. Among-cons_later path p paths rest.temps plain (rest.exactly p);
        }
    | inl temp ↦
        let answer = disk.remove_file path f in
        let rest = remove_temps-Swept paths (n + succeeded answer.0) answer.1 in
        elim (Result-cases answer.0) [
          | inl (e, failure) ↦ record {
            temps = path ∷ rest.temps;
            count = rest.count;
            after = rest.after;
            removals = failed path rest.temps f (rest.count, rest.after) e failure rest.removals;
            result =
                rw (temp, remove_temps)
                  (rest.result ∙ ap (λ k. (k, rest.after)) (rw failure (omega arith)));
            exactly = λ p. Among-cons_first path p paths rest.temps temp (rest.exactly p);
          }
          | inr (u, success) ↦ record {
            temps = path ∷ rest.temps;
            count = suc rest.count;
            after = rest.after;
            removals = removed path rest.temps f rest.after rest.count success rest.removals;
            result =
                rw (temp, remove_temps)
                  (rest.result ∙ ap (λ k. (k, rest.after)) (rw success (omega arith)));
            exactly = λ p. Among-cons_first path p paths rest.temps temp (rest.exactly p);
          }
        ]
  ]

  -- What a clean-up of the directory has done.
  pub record Cleaned (tree : Tree F) (root : FilePath) (f : F) (out : ℕ × F) : Type 0 where
    pub temps : List FilePath
    pub removals : Removals temps f out
    pub exactly : (p : FilePath) → Among p temps ↔ (Under tree f root p × IsTemp p)
    pub leftover :
        (target : FilePath) (action_id : String)
        → Under tree f root (with_file_name target (tmp_name target action_id))
        → Among (with_file_name target (tmp_name target action_id)) temps

  remove_temps-Cleaned :
      (tree : Tree F) (fuel : ℕ) (root : FilePath) (f : F) (paths : List FilePath)
      → walkdir tree f fuel root ≡ some (ok paths)
      → Cleaned tree root f (remove_temps disk paths 0 f)
  remove_temps-Cleaned tree fuel root f paths walk =
      let found = walkdir_iff tree f fuel root paths walk in
      let swept = remove_temps-Swept paths 0 f in
      let exactly : (p : FilePath) → Among p swept.temps ↔ (Under tree f root p × IsTemp p) = λ p. (
        λ m. let w = (swept.exactly p).0 m in ((found p).0 w.0, w.1),
        λ w. (swept.exactly p).1 ((found p).1 w.0, w.1),
      ) in
      let counted : (swept.count, swept.after) ≡ remove_temps disk paths 0 f =
        ap (λ k. (k, swept.after)) (omega arith) ∙ sym swept.result in
      record {
        temps = swept.temps;
        removals = subst (Removals swept.temps f) counted swept.removals;
        exactly = exactly;
        leftover =
            λ target action_id under. (exactly _).1 (under, tmp_name-IsTemp target action_id);
      }

  -- If links form no cycle and the fuel exceeds the rank of the directory, the clean-up ends. Either a
  -- directory could not be read, and nothing is done; or exactly the files that the walk finds under the
  -- directory, through links too, and whose names have `.ama.` in them and end in `.tmp`, among them the
  -- temporary files of writes, are removed one after the other, and nothing else is done; and the removals that
  -- succeed are counted.
  pub cleanup_orphan_temps-Cleaned :
      (tree : Tree F) (rank : FilePath → ℕ) (fuel : ℕ) (root : FilePath) (f : F)
      → Ranked tree f rank
      → rank root < fuel
      → (out : ℕ × F) × (cleanup_orphan_temps disk tree fuel root f ≡ some out)
        × (Cleaned tree root f out
            ⊎ ((e : String) × (walkdir tree f fuel root ≡ some (err e)) × (out ≡ (0, f))))
  unfolding cleanup_orphan_temps
  cleanup_orphan_temps-Cleaned tree rank fuel root f ranked enough =
      let (result, ends) = walkdir-Ends tree f rank fuel root ranked enough in
      elim (Result-cases result) [
        | inl (e, failure) ↦
            let walk = ends ∙ ap some failure in
            ((0, f), rw (walk, cleanup_orphan_temps) refl, inr (e, walk, refl))
        | inr (paths, found) ↦
            let walk = ends ∙ ap some found in
            (
              remove_temps disk paths 0 f,
              rw (walk, cleanup_orphan_temps) refl,
              inl (remove_temps-Cleaned tree fuel root f paths walk),
            )
      ]
