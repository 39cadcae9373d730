-- ===== src/Newtypes/Path/Confined.antt =====
-- safa-core/src/newtypes.rs: what an accepted path promises, for every file system.
use mathlib.Core.Path.{subst}
use ama.Prelude.{
  String, ◌≡◌, refl, ap, ◌∙◌, ◌≢◌, ◌⊎◌, inl, inr, true, false, Option, none, some, List, [], ◌∷◌,
  arith, string_eq, split, Bool-cases, Option-cases,
}
use mathlib.Core.List.{◌++◌}
use text.Mathlib.TextEquality.{eq_iff}
use ama.Errors.{ok, err, Result-cases, >>=-eq-ok}
use ama.Newtypes.Path.{
  FilePath, FileSystem, parent, file_name, join, path_starts_with, WorkspacePath, check_segments,
  is_separator, check_relative, resolve, effective_root, canonical_root, confine, new_with_agent,
}

-- `p` lies below `root`.
abbrev pub Below : FilePath → FilePath → Type 0
Below p root = (rest : FilePath) × (p ≡ root ++ rest)

Below-of_starts : (p root : FilePath) → path_starts_with p root ≡ true → Below p root
unfolding path_starts_with
Below-of_starts p [] h = (p, refl)
Below-of_starts [] (t ∷ ts) h = cc
Below-of_starts (s ∷ p) (t ∷ ts) h =
    let w = Below-of_starts p ts (ground arith) in (w.0, ground (arith, eq_iff s t, w.1))

abbrev NoTraversal : List String → Type 0
NoTraversal [] = Unit {0}
NoTraversal (s ∷ ss) = (s ≢ "..") × NoTraversal ss

check_segments-NoTraversal :
    (relative : String) (segments : List String)
    → check_segments relative segments ≡ ok tt
    → NoTraversal segments
unfolding check_segments
check_segments-NoTraversal relative [] h = tt
check_segments-NoTraversal relative (s ∷ ss) h =
    (λ e. ground (arith, eq_iff s ".."), check_segments-NoTraversal relative ss (ground arith))

-- How a path is resolved: itself, if it is there; its parent with the name put back, if only the parent is
-- there; and not at all if neither is.
pub data Resolves (fs : FileSystem) (joined : FilePath) : FilePath → Type 0 where
  existing :
      (p : FilePath)
      → fs.exists joined ≡ true
      → fs.canonicalize joined ≡ ok p
      → Resolves fs joined p
  created :
      (dir q : FilePath) (name : String)
      → fs.exists joined ≡ false
      → parent joined ≡ some dir
      → fs.exists dir ≡ true
      → fs.canonicalize dir ≡ ok q
      → file_name joined ≡ some name
      → Resolves fs joined (q ++ name ∷ [])
  unresolved :
      fs.exists joined ≡ false
      → (parent joined ≡ none)
        ⊎ ((dir : FilePath) × (parent joined ≡ some dir) × (fs.exists dir ≡ false))
      → Resolves fs joined joined

-- The directory that paths are confined to: the root's canonical form, or the root if it has none.
pub data RootOf (fs : FileSystem) (root : FilePath) : FilePath → Type 0 where
  canonicalized :
      (p : FilePath) → fs.exists root ≡ true → fs.canonicalize root ≡ ok p → RootOf fs root p
  failing :
      (e : String) → fs.exists root ≡ true → fs.canonicalize root ≡ err e → RootOf fs root root
  absent : fs.exists root ≡ false → RootOf fs root root

resolve-Resolves :
    (fs : FileSystem) (joined p : FilePath) → resolve fs joined ≡ ok p → Resolves fs joined p
unfolding resolve
resolve-Resolves fs joined p h = elim (Bool-cases (fs.exists joined)) [
  | inl there ↦ elim (Result-cases (fs.canonicalize joined)) [
    | inl (e, failed) ↦ absurd (ground arith)
    | inr (q, found) ↦
        let same : q ≡ p = ground arith in existing p there (found ∙ ap (λ x. ok x) same)
  ]
  | inr gone ↦ elim (Option-cases (parent joined)) [
    | inl top ↦
        let same : joined ≡ p = ground arith in
        subst (Resolves fs joined) same (unresolved gone (inl top))
    | inr (dir, above) ↦ elim (Bool-cases (fs.exists dir)) [
      | inr none_ ↦
          let same : joined ≡ p = ground arith in
          subst (Resolves fs joined) same (unresolved gone (inr (dir, above, none_)))
      | inl there ↦ elim (Result-cases (fs.canonicalize dir)) [
        | inl (e, failed) ↦ absurd (ground arith)
        | inr (q, found) ↦ elim (Option-cases (file_name joined)) [
          | inl nameless ↦ absurd (ground arith)
          | inr (name, named) ↦
              let same : q ++ name ∷ [] ≡ p = ground arith in
              subst (Resolves fs joined) same (created dir q name gone above there found named)
        ]
      ]
    ]
  ]
]

canonical_root-RootOf :
    (fs : FileSystem) (root : FilePath) → RootOf fs root (canonical_root fs root)
unfolding canonical_root
canonical_root-RootOf fs root = elim (Bool-cases (fs.exists root)) [
  | inl there ↦ elim (Result-cases (fs.canonicalize root)) [
    | inl (e, failed) ↦ rw (there, failed, canonical_root) (failing e there failed)
    | inr (p, found) ↦ rw (there, found, canonical_root) (canonicalized p there found)
  ]
  | inr gone ↦ rw (gone, canonical_root) (absent gone)
]

-- What the caller of an accepted path may rely on.
pub record IsConfined (fs : FileSystem) (root : FilePath) (relative : String) (p : WorkspacePath)
    : Type 0 where
  pub below : Below p.canonical (canonical_root fs root)
  pub root_of : RootOf fs root (canonical_root fs root)
  pub no_traversal : NoTraversal (split is_separator relative)
  pub resolved : Resolves fs (join root relative) p.canonical
  pub kept : p.relative ≡ relative

confined :
    (canonical root : FilePath) (relative : String) (p : WorkspacePath)
    → confine canonical root relative ≡ ok p
    → (p.canonical ≡ canonical) × Below canonical root × (p.relative ≡ relative)
unfolding confine
confined canonical root relative p h =
    (ground arith, Below-of_starts canonical root (ground arith), ground arith)

checked_segments :
    (relative : String)
    → check_relative relative ≡ ok tt
    → NoTraversal (split is_separator relative)
unfolding check_relative
checked_segments relative h =
    check_segments-NoTraversal relative (split is_separator relative) (ground arith)

-- An accepted path lies below the directory of its agent, which is resolved if it can be; its text has no
-- `..` between separators of either kind; and it is the canonical form of the joined path, or of its
-- parent with the file name put back if only the parent exists, or the joined path as it is if neither
-- exists.
pub new_with_agent-IsConfined :
    (fs : FileSystem) (relative : String) (workspace_root : FilePath) (agent_id : Option String)
    (p : WorkspacePath)
    → new_with_agent fs relative workspace_root agent_id ≡ ok p
    → IsConfined fs (effective_root workspace_root agent_id) relative p
unfolding new_with_agent
new_with_agent-IsConfined fs relative workspace_root agent_id p h =
    let root = effective_root workspace_root agent_id in
    let checked = >>=-eq-ok (check_relative relative) _ p h in
    let found = >>=-eq-ok (resolve fs (join root relative)) _ p checked.2 in
    let inside = confined found.0 (canonical_root fs root) relative p found.2 in
    record {
      below = rw inside.0 inside.1;
      root_of = canonical_root-RootOf fs root;
      no_traversal = checked_segments relative checked.1;
      resolved = rw inside.0 (resolve-Resolves fs (join root relative) found.0 found.1);
      kept = inside.2;
    }

Below-siblings :
    (root : FilePath) (a b : String) (p : FilePath)
    → Below p (root ++ a ∷ [])
    → Below p (root ++ b ∷ [])
    → a ≡ b
Below-siblings [] a b p u v = cc (u.1, v.1)
Below-siblings (s ∷ root) a b [] u v = cc (u.1)
Below-siblings (s ∷ root) a b (t ∷ p) u v =
    Below-siblings root a b p (u.0, cc (u.1)) (v.0, cc (v.1))

-- The accepted paths of different agents lie in different directories, and are different, if each agent's
-- directory resolves to a directory of its name in one place.
pub agents_isolated :
    (fs : FileSystem) (relative relative' a b : String) (workspace_root resolved_root : FilePath)
    (p q : WorkspacePath)
    → canonical_root fs (effective_root workspace_root (some a)) ≡ resolved_root ++ a ∷ []
    → canonical_root fs (effective_root workspace_root (some b)) ≡ resolved_root ++ b ∷ []
    → a ≢ b
    → new_with_agent fs relative workspace_root (some a) ≡ ok p
    → new_with_agent fs relative' workspace_root (some b) ≡ ok q
    → Below p.canonical (resolved_root ++ a ∷ [])
      × Below q.canonical (resolved_root ++ b ∷ [])
      × (p.canonical ≢ q.canonical)
agents_isolated fs relative relative' a b workspace_root resolved_root p q ra rb other hp hq =
    let u = (new_with_agent-IsConfined fs relative workspace_root (some a) p hp).below in
    let v = (new_with_agent-IsConfined fs relative' workspace_root (some b) q hq).below in
    let below_a : Below p.canonical (resolved_root ++ a ∷ []) = (u.0, cc (ra, u.1)) in
    let below_b : Below q.canonical (resolved_root ++ b ∷ []) = (v.0, cc (rb, v.1)) in
    (
      below_a,
      below_b,
      λ same. other (
          Below-siblings resolved_root a b q.canonical
            (subst (λ x. Below x (resolved_root ++ a ∷ [])) same below_a) below_b),
    )
