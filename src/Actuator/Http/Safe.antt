-- ===== src/Actuator/Http/Safe.antt =====
-- safa-core/src/actuator/http.rs: what `http_request` contacts, and what it returns.
use mathlib.Core.Path.{subst}
use text.Mathlib.TextEquality.{eq_iff}
use ama.Prelude.{
  ℕ, zero, suc, ◌/◌, ◌%◌, ◌≤◌, ◌≡◌, refl, sym, ◌⊎◌, inl, inr, String, false, Option, none, some,
  List, [], ◌∷◌, arith, length, nat_beq, ltb, ◌==◌, string_eq, Bool-cases,
}
use ama.Errors.{
  map_err, map_err-ok, ok_or-some, Result-cases, ok, err, AmaError, >>=-eq-ok, ok_injective, ok_or,
  fail_if,
}
use ama.Config.{AllowlistEntry}
use ama.Newtypes.{BoundedBytes, HttpMethod}
use ama.Newtypes.Url.{AllowlistedUrl, allowlisted_url}
use ama.Newtypes.Url.Glob.{IsAllowed, allowlisted_url_iff}
use ama.Actuator.Http.{
  max_response_bytes, HttpResult, IpAddr, v4, v6, is_private_ip, HttpResponse, Network, take,
  read_bytes, check_addresses, validate_dns, prepare, sent_body, check_remote, check_final_url,
  receive, http_request,
}

-- The addresses that are refused: the reserved ranges of IPv4; and of IPv6 the unspecified and the loopback
-- address, and the mapped forms of the loopback, private and link-local IPv4 addresses. No other range of IPv6
-- is refused, such as fc00::/7 and fe80::/10.
abbrev pub Refused : IpAddr → Type 0
Refused (v4 ip) =
    (ip.a ≡ 0)
    ⊎ (ip.a ≡ 10)
    ⊎ (ip.a ≡ 127)
    ⊎ ((ip.a ≡ 169) × (ip.b ≡ 254))
    ⊎ ((ip.a ≡ 172) × (16 ≤ ip.b) × (ip.b ≤ 31))
    ⊎ ((ip.a ≡ 192) × (ip.b ≡ 168))
    ⊎ ((ip.a ≡ 255) × (ip.b ≡ 255) × (ip.c ≡ 255) × (ip.d ≡ 255))
Refused (v6 ip) =
    (ip.s0 ≡ 0)
    × (ip.s1 ≡ 0)
    × (ip.s2 ≡ 0)
    × (ip.s3 ≡ 0)
    × (ip.s4 ≡ 0)
    × (((ip.s5 ≡ 0) × (ip.s6 ≡ 0) × (ip.s7 ≤ 1))
        ⊎ ((ip.s5 ≡ 0xffff)
            × ((ip.s6 / 256 ≡ 127)
                ⊎ (ip.s6 / 256 ≡ 10)
                ⊎ ((ip.s6 / 256 ≡ 172) × (16 ≤ ip.s6 % 256) × (ip.s6 % 256 ≤ 31))
                ⊎ (ip.s6 ≡ 0xc0a8)
                ⊎ (ip.s6 ≡ 0xa9fe))))

is_private_ip-Refused : (ip : IpAddr) → is_private_ip ip ≡ false → Refused ip → ⊥
unfolding is_private_ip
is_private_ip-Refused (v4 ip) h refused = ground arith
is_private_ip-Refused (v6 ip) h refused = ground arith

abbrev pub NoneRefused : List IpAddr → Type 0
NoneRefused [] = Unit {0}
NoneRefused (ip ∷ ips) = (¬ Refused ip) × NoneRefused ips

abbrev pub RemoteNotRefused : Option IpAddr → Type 0
RemoteNotRefused none = Unit {0}
RemoteNotRefused (some ip) = ¬ Refused ip

-- A GET has no body, and a POST the text of the action's.
abbrev pub SentBody : HttpMethod → Option BoundedBytes → Option String → Type 0
SentBody HttpMethod.get body sent = sent ≡ none
SentBody HttpMethod.post none sent = sent ≡ none
SentBody HttpMethod.post (some data_) sent = sent ≡ some data_.text

take-length : (n : ℕ) (bytes : List ℕ) → length (take n bytes) ≤ n
unfolding take
take-length zero bytes = omega arith
take-length (suc n) [] = omega arith
take-length (suc n) (b ∷ bytes) = omega (arith, take-length n bytes)

take-all : (n : ℕ) (bytes : List ℕ) → length bytes ≤ n → take n bytes ≡ bytes
unfolding take
take-all zero [] h = refl
take-all zero (b ∷ bytes) h = absurd (omega (arith, h))
take-all (suc n) [] h = refl
take-all (suc n) (b ∷ bytes) h = ground (arith, take-all n bytes)

read_bytes-take : (bytes : List ℕ) → read_bytes bytes ≡ take max_response_bytes bytes
unfolding read_bytes
read_bytes-take bytes = elim (Bool-cases (ltb max_response_bytes (length bytes))) [
  | inl long ↦ rw long refl
  | inr short ↦ rw short (sym (take-all max_response_bytes bytes (ground arith)))
]

module _ {W : Type 0} (net : Network W) where
  -- The host of the URL resolves, and to no refused address.
  pub record Prepared (url : String) (w : W) : Type 0 where
    pub host : String
    pub addrs : List IpAddr
    pub parsed : net.parse_host url ≡ ok (some host)
    pub resolved : net.lookup_host host w ≡ ok addrs
    pub found : 1 ≤ length addrs
    pub none_refused : NoneRefused addrs

  check_addresses-NoneRefused :
      (ips : List IpAddr) → check_addresses net ips ≡ ok tt → NoneRefused ips
  unfolding check_addresses
  check_addresses-NoneRefused [] h = tt
  check_addresses-NoneRefused (ip ∷ ips) h =
      (is_private_ip-Refused ip (ground arith), check_addresses-NoneRefused ips (ground arith))

  prepare-Prepared : (url : String) (w : W) → prepare net url w ≡ ok tt → Prepared url w
  unfolding prepare validate_dns
  prepare-Prepared url w h =
      let parsed = >>=-eq-ok (map_err _ (net.parse_host url)) _ tt h in
      let host = >>=-eq-ok (ok_or parsed.0 _) _ tt parsed.2 in
      let valid = >>=-eq-ok (validate_dns net host.0 w) _ tt host.2 in
      let addrs = >>=-eq-ok (map_err _ (net.lookup_host host.0 w)) _ tt valid.1 in
      let some_ = >>=-eq-ok (fail_if (nat_beq (length addrs.0) 0) _) _ tt addrs.2 in
      let named = ok_or-some parsed.0 _ host.0 host.1 in
      record {
        host = host.0;
        addrs = addrs.0;
        parsed =
            subst (λ o. net.parse_host url ≡ ok o) named
              (map_err-ok _ (net.parse_host url) parsed.0 parsed.1);
        resolved = map_err-ok _ (net.lookup_host host.0 w) addrs.0 addrs.1;
        found = ground (arith, some_.1);
        none_refused = check_addresses-NoneRefused addrs.0 some_.2;
      }

  -- A response that may be returned, and what is returned of it.
  pub record Accepted (url : String) (allowlist : List AllowlistEntry) (response : HttpResponse)
      (r : HttpResult) : Type 0 where
    pub bytes : List ℕ
    pub remote : RemoteNotRefused response.remote_addr
    pub final_url : (response.url ≡ url) ⊎ IsAllowed response.url allowlist
    pub read : response.bytes ≡ ok bytes
    pub status : r.status_code ≡ response.status
    pub truncated : r.truncated ≡ ltb max_response_bytes (length bytes)
    pub body : net.from_utf8 (take max_response_bytes bytes) ≡ some r.body
    pub bounded : length (take max_response_bytes bytes) ≤ max_response_bytes

  check_remote-RemoteNotRefused :
      (remote : Option IpAddr) → check_remote net remote ≡ ok tt → RemoteNotRefused remote
  check_remote-RemoteNotRefused none h = tt
  check_remote-RemoteNotRefused (some ip) h = is_private_ip-Refused ip (ground arith)

  check_final_url-IsAllowed :
      (final url : String) (allowlist : List AllowlistEntry)
      → check_final_url net final url allowlist ≡ ok tt
      → (final ≡ url) ⊎ IsAllowed final allowlist
  unfolding allowlisted_url
  check_final_url-IsAllowed final url allowlist h = elim (Bool-cases (final == url)) [
    | inl same ↦ inl ((eq_iff final url).0 same)
    | inr other ↦ inr ((allowlisted_url_iff final allowlist).0 (ground arith))
  ]

  receive-Accepted :
      (url : String) (allowlist : List AllowlistEntry) (response : HttpResponse) (r : HttpResult)
      → receive net url allowlist response ≡ ok r
      → Accepted url allowlist response r
  unfolding receive
  receive-Accepted url allowlist response r h =
      let remote = >>=-eq-ok (check_remote net response.remote_addr) _ r h in
      let final = >>=-eq-ok (check_final_url net response.url url allowlist) _ r remote.2 in
      let bytes = >>=-eq-ok (map_err _ response.bytes) _ r final.2 in
      let text = >>=-eq-ok (ok_or (net.from_utf8 (read_bytes bytes.0)) _) _ r bytes.2 in
      let decoded = ok_or-some (net.from_utf8 (read_bytes bytes.0)) _ text.0 text.1 in
      subst (Accepted url allowlist response) (ok_injective text.2) (record {
        bytes = bytes.0;
        remote = check_remote-RemoteNotRefused response.remote_addr remote.1;
        final_url = check_final_url-IsAllowed response.url url allowlist final.1;
        read = map_err-ok _ response.bytes bytes.0 bytes.1;
        status = refl;
        truncated = refl;
        body = subst (λ b. net.from_utf8 b ≡ some text.0) (read_bytes-take bytes.0) decoded;
        bounded = take-length max_response_bytes bytes.0;
      })

  sent_body-SentBody :
      (method : HttpMethod) (body : Option BoundedBytes)
      → SentBody method body (sent_body net method body)
  sent_body-SentBody HttpMethod.get body = refl
  sent_body-SentBody HttpMethod.post none = refl
  sent_body-SentBody HttpMethod.post (some data_) = refl

  -- Nothing is sent unless the host of the URL resolves, and to no address of the refused ranges, which hold
  -- few of IPv6; then the client is called once, with the method and the URL of the action and, for a POST, its
  -- body. This is about the call of the client, and not about the redirects that the client then follows.
  pub http_request-sent :
      (method : HttpMethod) (url : AllowlistedUrl) (body : Option BoundedBytes)
      (allowlist : List AllowlistEntry) (w : W)
      → (((http_request net method url body allowlist w).1 ≡ w)
          × ((e : AmaError) × ((http_request net method url body allowlist w).0 ≡ err e)))
        ⊎ (Prepared url.url w
            × ((sent : Option String) × SentBody method body sent
                × ((http_request net method url body allowlist w).1
                    ≡ (net.send method url.url sent w).1)))
  unfolding http_request
  http_request-sent method url body allowlist w = elim (Result-cases (prepare net url.url w)) [
    | inl (e, failed) ↦ inl (ground arith, (e, ground arith))
    | inr (u, passed) ↦ inr (
      prepare-Prepared url.url w passed,
      (sent_body net method body, sent_body-SentBody method body, ground arith),
    )
  ]

  -- A result comes from a response of an address outside the refused ranges, which hold few of IPv6,
  -- if its address is known, at the URL of the action
  -- or, after redirects, at an allowed one; its text is that of the first 262144 bytes at most, and
  -- it is marked truncated exactly if there were more.
  pub http_request-Accepted :
      (method : HttpMethod) (url : AllowlistedUrl) (body : Option BoundedBytes)
      (allowlist : List AllowlistEntry) (w : W) (r : HttpResult)
      → (http_request net method url body allowlist w).0 ≡ ok r
      → (sent : Option String) × (response : HttpResponse) × SentBody method body sent
        × ((net.send method url.url sent w).0 ≡ ok response)
        × Accepted url.url allowlist response r
  unfolding http_request
  http_request-Accepted method url body allowlist w r h =
      elim (Result-cases (prepare net url.url w)) [
        | inl (e, failed) ↦ absurd (ground arith)
        | inr (u, passed) ↦
            elim (Result-cases (net.send method url.url (sent_body net method body) w).0) [
              | inl (e, failed) ↦ absurd (ground arith)
              | inr (response, came) ↦ (
                sent_body net method body,
                response,
                sent_body-SentBody method body,
                came,
                receive-Accepted url.url allowlist response r (ground arith),
              )
            ]
      ]
