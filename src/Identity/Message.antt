-- ===== src/Identity/Message.antt =====
-- safa-core/src/identity.rs: the signed message determines what was signed.
use Prim.Native.Char.{Char, code}
use Prim.Native.String.{◌++◌}
use text.Mathlib.TextLemmas.{cons-append, nil-append}
use ama.Prelude.{
  ap, ◌-◌, ◌+◌, ◌*◌, ℕ, ◌≡◌, refl, String, false, some, arith, parse_u64, parse_digits,
  contains_char,
}
use ama.Identity.{build_signing_message}

abbrev dot : Char
dot = Char.char b'.' tt

-- A text up to its first dot is determined.
split_at_dot :
    (a a' r r' : String)
    → contains_char b'.' a ≡ false
    → contains_char b'.' a' ≡ false
    → a ++ ("." ++ r) ≡ a' ++ ("." ++ r')
    → (a ≡ a') × (r ≡ r')
unfolding contains_char
split_at_dot String.[] String.[] r r' h h' e = (
  refl,
  cc (
    e,
    nil-append ("." ++ r),
    nil-append ("." ++ r'),
    cons-append dot "" r,
    cons-append dot "" r',
    nil-append r,
    nil-append r',
  ),
)
split_at_dot String.[] (String.◌∷◌ c a') r r' h h' e =
    let same : c ≡ dot =
      cc (e, nil-append ("." ++ r), cons-append dot "" r, cons-append c a' ("." ++ r')) in
    absurd (ground (arith, ap code same))
split_at_dot (String.◌∷◌ c a) String.[] r r' h h' e =
    let same : c ≡ dot =
      cc (e, nil-append ("." ++ r'), cons-append dot "" r', cons-append c a ("." ++ r)) in
    absurd (ground (arith, ap code same))
split_at_dot (String.◌∷◌ c a) (String.◌∷◌ c' a') r r' h h' e =
    let w =
      split_at_dot a a' r r' (ground arith) (ground arith)
        (cc (e, cons-append c a ("." ++ r), cons-append c' a' ("." ++ r'))) in
    (cc (e, w.0, cons-append c a ("." ++ r), cons-append c' a' ("." ++ r')), w.1)

parse_digits_no_dot :
    (n : ℕ) (s : String) (m : ℕ) → parse_digits n s ≡ some m → contains_char b'.' s ≡ false
unfolding parse_digits contains_char
parse_digits_no_dot n String.[] m h = refl
parse_digits_no_dot n (String.◌∷◌ c s) m h =
    ground (arith, parse_digits_no_dot (n * 10 + (code c - b'0')) s m)

parse_u64_no_dot : (s : String) (m : ℕ) → parse_u64 s ≡ some m → contains_char b'.' s ≡ false
unfolding parse_u64 contains_char
parse_u64_no_dot String.[] m h = refl
parse_u64_no_dot (String.◌∷◌ c String.[]) m h =
    ground (arith, parse_digits_no_dot 0 (String.◌∷◌ c String.[]) m)
parse_u64_no_dot (String.◌∷◌ c (String.◌∷◌ d s)) m h = ground (
  arith,
  parse_digits_no_dot 0 (String.◌∷◌ d s) m,
  parse_digits_no_dot 0 (String.◌∷◌ c (String.◌∷◌ d s)) m,
)

-- Two requests with the same signing message have the same agent, timestamp and body hash, if their
-- timestamps parse and no agent id has a dot, as the configuration makes sure.
pub build_signing_message-injective :
    (agent_id agent_id' timestamp timestamp' body_sha256 body_sha256' : String) (t t' : ℕ)
    → contains_char b'.' agent_id ≡ false
    → contains_char b'.' agent_id' ≡ false
    → parse_u64 timestamp ≡ some t
    → parse_u64 timestamp' ≡ some t'
    → build_signing_message agent_id timestamp body_sha256
      ≡ build_signing_message agent_id' timestamp' body_sha256'
    → (agent_id ≡ agent_id') × (timestamp ≡ timestamp') × (body_sha256 ≡ body_sha256')
unfolding build_signing_message
build_signing_message-injective a a' ts ts' b b' t t' ha ha' ht ht' e =
    let u = split_at_dot a a' _ _ ha ha' e in
    let v = split_at_dot ts ts' b b' (parse_u64_no_dot ts t ht) (parse_u64_no_dot ts' t' ht') u.1 in
    (u.0, v.0, v.1)
