-- ===== src/Prelude/TextLaws.antt =====
-- Laws of the text functions, as equations between texts.
use Prim.Native.String.{◌++◌, String}
use mathlib.Core.Path.{◌≡◌, refl, sym, ap, ◌∙◌}
use mathlib.Core.Logic.{◌↔◌, inl, inr}
use mathlib.Core.Bool.{true}
use mathlib.Core.Option.{some}
use native.Mathlib.Omega.{arith}
use text.Mathlib.TextEquality.{Char-path}
use text.Mathlib.TextLemmas.{cons-append, nil-append}
use ama.Prelude.Tests.{Option-cases, Bool-cases, ◌==◌, string_eq}
use ama.Prelude.Text.{strip_prefix, starts_with, contains, ends_with}

strip_prefix-append : (p r : String) → strip_prefix (p ++ r) p ≡ some r
unfolding strip_prefix
strip_prefix-append String.[] r = rw nil-append (strip_prefix_nil r)
  where
    strip_prefix_nil : (s : String) → strip_prefix s String.[] ≡ some s
    strip_prefix_nil String.[] = refl
    strip_prefix_nil (String.◌∷◌ c s) = refl
strip_prefix-append (String.◌∷◌ c p) r = rw cons-append (ground (arith, strip_prefix-append p r))

append-strip_prefix : (s p r : String) → strip_prefix s p ≡ some r → s ≡ p ++ r
unfolding strip_prefix
append-strip_prefix String.[] String.[] r h = ground (arith, nil-append r)
append-strip_prefix (String.◌∷◌ d s) String.[] r h = ground (arith, nil-append r)
append-strip_prefix String.[] (String.◌∷◌ c p) r h = cc
append-strip_prefix (String.◌∷◌ d s) (String.◌∷◌ c p) r h =
    ground (arith, append-strip_prefix s p r, Char-path d c, cons-append c p r)

-- A text is a prefix and a rest exactly if stripping the prefix leaves the rest.
pub strip_prefix_iff : (s p r : String) → (strip_prefix s p ≡ some r) ↔ (s ≡ p ++ r)
strip_prefix_iff s p r = (append-strip_prefix s p r, λ e. rw e (strip_prefix-append p r))

pub starts_with_iff : (s p : String) → (starts_with s p ≡ true) ↔ ((r : String) × (s ≡ p ++ r))
unfolding starts_with
starts_with_iff s p = (
  λ h. elim (Option-cases (strip_prefix s p)) [
    | inl e ↦ absurd (ground arith)
    | inr (r, e) ↦ (r, append-strip_prefix s p r e)
  ],
  λ w. ground (arith, (strip_prefix_iff s p w.0).1 w.1),
)

starts_with-contains : (s p : String) → starts_with s p ≡ true → contains s p ≡ true
unfolding contains
starts_with-contains String.[] p h = h
starts_with-contains (String.◌∷◌ c s) p h = rw h refl

pub contains-append : (a p r : String) → contains (a ++ (p ++ r)) p ≡ true
unfolding contains
contains-append String.[] p r =
    rw (nil-append (p ++ r))
      (starts_with-contains (p ++ r) p ((starts_with_iff (p ++ r) p).1 (r, refl)))
contains-append (String.◌∷◌ c a) p r =
    rw (cons-append c a (p ++ r)) (ground (arith, contains-append a p r))

ends_with_refl : (p : String) → ends_with p p ≡ true
unfolding ends_with
ends_with_refl String.[] = refl
ends_with_refl (String.◌∷◌ c p) =
    rw ((string_eq.equal_iff (String.◌∷◌ c p) (String.◌∷◌ c p)).1 refl) refl

pub ends_with-append : (a p : String) → ends_with (a ++ p) p ≡ true
unfolding ends_with
ends_with-append String.[] p = rw (nil-append p) (ends_with_refl p)
ends_with-append (String.◌∷◌ c a) p = rw (cons-append c a p) (ground (arith, ends_with-append a p))

contains-split :
    (s p : String) → contains s p ≡ true → (a : String) × (r : String) × (s ≡ a ++ (p ++ r))
unfolding contains
contains-split String.[] p h =
    let w = (starts_with_iff String.[] p).0 h in ("", w.0, w.1 ∙ sym (nil-append (p ++ w.0)))
contains-split (String.◌∷◌ c s) p h = elim (Bool-cases (starts_with (String.◌∷◌ c s) p)) [
  | inl here ↦
      let w = (starts_with_iff (String.◌∷◌ c s) p).0 here in
      ("", w.0, w.1 ∙ sym (nil-append (p ++ w.0)))
  | inr later ↦
      let w = contains-split s p (ground arith) in
      (String.◌∷◌ c w.0, w.1, ap (String.◌∷◌ c) w.2 ∙ sym (cons-append c w.0 (p ++ w.1)))
]

pub contains_iff :
    (s p : String) → (contains s p ≡ true) ↔ ((a : String) × (r : String) × (s ≡ a ++ (p ++ r)))
contains_iff s p = (contains-split s p, λ w. rw w.2 (contains-append w.0 p w.1))

ends_with-split : (s p : String) → ends_with s p ≡ true → (a : String) × (s ≡ a ++ p)
unfolding ends_with
ends_with-split String.[] p h = ("", (string_eq.equal_iff "" p).0 h ∙ sym (nil-append p))
ends_with-split (String.◌∷◌ c s) p h = elim (Bool-cases (String.◌∷◌ c s == p)) [
  | inl here ↦ ("", (string_eq.equal_iff (String.◌∷◌ c s) p).0 here ∙ sym (nil-append p))
  | inr later ↦
      let w = ends_with-split s p (ground arith) in
      (String.◌∷◌ c w.0, ap (String.◌∷◌ c) w.1 ∙ sym (cons-append c w.0 p))
]

pub ends_with_iff : (s p : String) → (ends_with s p ≡ true) ↔ ((a : String) × (s ≡ a ++ p))
ends_with_iff s p = (ends_with-split s p, λ w. rw w.1 (ends_with-append w.0 p))
