-- ===== src/Actuator/Http.antt =====
-- safa-core/src/actuator/http.rs: the HTTP actuator. The network is a parameter, with the state of the
-- world that it acts on.
pub mod Address
pub mod Safe
use Prim.Native.String.{◌++◌}
use mathlib.Core.List.{map}
use ama.Prelude.{
  ℕ, zero, suc, ◌/◌, ◌%◌, String, Bool, true, false, Option, none, some, List, [], ◌∷◌, ◌||◌, ◌&&◌,
  not, nat_beq, leb, ltb, if◌then◌else◌, length, ◌==◌, string_eq,
}
use ama.Errors.{
  Result, ok, err, AmaError, validation, service_unavailable, ◌>>=◌, ◌>>◌, ok_or, fail_if, map_err,
}
use ama.Config.{AllowlistEntry}
use ama.Newtypes.{BoundedBytes, HttpMethod}
use ama.Newtypes.Url.{AllowlistedUrl, allowlisted_url}

abbrev pub max_response_bytes : ℕ
max_response_bytes = 262144

pub record HttpResult : Type 0 where
  pub status_code : ℕ
  pub body : String
  pub truncated : Bool

-- The octets of an IPv4 address.
pub record Ipv4Addr : Type 0 where
  pub a : ℕ
  pub b : ℕ
  pub c : ℕ
  pub d : ℕ

-- The segments of an IPv6 address.
pub record Ipv6Addr : Type 0 where
  pub s0 : ℕ
  pub s1 : ℕ
  pub s2 : ℕ
  pub s3 : ℕ
  pub s4 : ℕ
  pub s5 : ℕ
  pub s6 : ℕ
  pub s7 : ℕ

pub data IpAddr : Type 0 where
  v4 : Ipv4Addr → IpAddr
  v6 : Ipv6Addr → IpAddr

-- The tests of `std::net::Ipv4Addr`.
abbrev pub is_loopback : Ipv4Addr → Bool
is_loopback ip = nat_beq ip.a 127

abbrev pub is_private : Ipv4Addr → Bool
is_private ip =
    nat_beq ip.a 10
    || (nat_beq ip.a 172 && (leb 16 ip.b && leb ip.b 31) || nat_beq ip.a 192 && nat_beq ip.b 168)

abbrev pub is_link_local : Ipv4Addr → Bool
is_link_local ip = nat_beq ip.a 169 && nat_beq ip.b 254

abbrev pub is_broadcast : Ipv4Addr → Bool
is_broadcast ip = nat_beq ip.a 255 && (nat_beq ip.b 255 && (nat_beq ip.c 255 && nat_beq ip.d 255))

abbrev pub is_unspecified : Ipv4Addr → Bool
is_unspecified ip = nat_beq ip.a 0 && (nat_beq ip.b 0 && (nat_beq ip.c 0 && nat_beq ip.d 0))

-- The first five segments are 0.
abbrev pub leading_zeros : Ipv6Addr → Bool
leading_zeros ip =
    nat_beq ip.s0 0
    && (nat_beq ip.s1 0 && (nat_beq ip.s2 0 && (nat_beq ip.s3 0 && nat_beq ip.s4 0)))

-- `Ipv6Addr::to_ipv4_mapped`
abbrev pub to_ipv4_mapped : Ipv6Addr → Option Ipv4Addr
to_ipv4_mapped ip =
    if leading_zeros ip && nat_beq ip.s5 0xffff
    then some (record { a = ip.s6 / 256; b = ip.s6 % 256; c = ip.s7 / 256; d = ip.s7 % 256 })
    else none

unfoldable pub is_private_ip : IpAddr → Bool
is_private_ip (v4 ip) =
    is_loopback ip
    || (is_private ip
        || (is_link_local ip || (is_broadcast ip || (is_unspecified ip || nat_beq ip.a 0))))
is_private_ip (v6 ip) =
    leading_zeros ip && (nat_beq ip.s5 0 && (nat_beq ip.s6 0 && nat_beq ip.s7 1))
    || (leading_zeros ip && (nat_beq ip.s5 0 && (nat_beq ip.s6 0 && nat_beq ip.s7 0))
        || elim (to_ipv4_mapped ip) [
          | none ↦ false
          | some m ↦ is_loopback m || (is_private m || is_link_local m)
        ])

pub data SendError : Type 0 where
  redirect timeout : SendError
  other : String → SendError

-- `reqwest::Response`; the body is read in full, or fails with a text.
pub record HttpResponse : Type 0 where
  pub remote_addr : Option IpAddr
  pub url : String
  pub status : ℕ
  pub bytes : Result String (List ℕ)

-- The crates reqwest and tokio, with the client that the code configures, and `String::from_utf8`.
pub record Network (W : Type 0) : Type 0 where
  pub parse_host : String → Result String (Option String)
  pub lookup_host : String → W → Result String (List IpAddr)
  pub build_client : Result String (Unit {0})
  pub send : HttpMethod → String → Option String → W → Result SendError HttpResponse × W
  pub show_ip : IpAddr → String
  pub from_utf8 : List ℕ → Option String

unfoldable pub send_error : SendError → AmaError
send_error redirect =
    validation "redirect_error" "redirect limit exceeded or POST redirect rejected"
send_error timeout = service_unavailable "HTTP request timed out"
send_error (other e) = service_unavailable ("HTTP request failed: " ++ e)

unfoldable pub take : ℕ → List ℕ → List ℕ
take zero bytes = []
take (suc n) [] = []
take (suc n) (b ∷ bytes) = b ∷ take n bytes

unfoldable pub read_bytes : List ℕ → List ℕ
unfolding take
read_bytes bytes =
    if ltb max_response_bytes (length bytes) then take max_response_bytes bytes else bytes

module _ {W : Type 0} (net : Network W) where
  -- The loop over the addresses.
  unfoldable pub check_addresses : List IpAddr → Result AmaError (Unit {0})
  unfolding is_private_ip
  check_addresses [] = ok tt
  check_addresses (ip ∷ ips) = do
    fail_if (is_private_ip ip)
        (validation "invalid_target" ("URL resolves to private/loopback IP: " ++ net.show_ip ip))
    check_addresses ips

  unfoldable pub validate_dns : String → W → Result AmaError (Unit {0})
  unfolding check_addresses
  validate_dns host w = do
    addrs ←
        map_err (λ e. service_unavailable ("DNS resolution failed: " ++ e)) (net.lookup_host host w)
    fail_if (nat_beq (length addrs) 0) (service_unavailable "DNS resolved to no addresses")
    check_addresses addrs

  -- What is done before the request is sent.
  unfoldable pub prepare : String → W → Result AmaError (Unit {0})
  unfolding validate_dns
  prepare url_str w = do
    parsed ←
        map_err (λ e. validation "invalid_target" ("invalid URL: " ++ e)) (net.parse_host url_str)
    host ← ok_or parsed (validation "invalid_target" "URL has no host")
    validate_dns host w
    map_err (λ e. service_unavailable ("HTTP client build failed: " ++ e)) net.build_client

  abbrev pub sent_body : HttpMethod → Option BoundedBytes → Option String
  sent_body HttpMethod.get body = none
  sent_body HttpMethod.post none = none
  sent_body HttpMethod.post (some data_) = some data_.text

  abbrev pub check_remote : Option IpAddr → Result AmaError (Unit {0})
  check_remote none = ok tt
  check_remote (some ip) =
      fail_if (is_private_ip ip)
        (validation "invalid_target" ("response came from private IP: " ++ net.show_ip ip))

  abbrev pub check_final_url : String → String → List AllowlistEntry → Result AmaError (Unit {0})
  check_final_url final_url url_str allowlist =
      if final_url == url_str then ok tt else elim (allowlisted_url final_url allowlist) [
        | ok u ↦ ok tt
        | err e ↦ err (validation "redirect_error" "redirect target not in allowlist")
      ]

  -- What is done with the response.
  unfoldable pub receive : String → List AllowlistEntry → HttpResponse → Result AmaError HttpResult
  unfolding is_private_ip allowlisted_url read_bytes
  receive url_str allowlist response = do
    check_remote response.remote_addr
    check_final_url response.url url_str allowlist
    body_bytes ←
        map_err (λ e. service_unavailable ("failed to read response body: " ++ e)) response.bytes
    let truncated = ltb max_response_bytes (length body_bytes)
    body_text ←
        ok_or (net.from_utf8 (read_bytes body_bytes))
          (service_unavailable "response body is not valid UTF-8 (P0 is text-only)")
    ok (record { status_code = response.status; body = body_text; truncated = truncated })

  unfoldable pub http_request :
      HttpMethod
      → AllowlistedUrl
      → Option BoundedBytes
      → List AllowlistEntry
      → W
      → Result AmaError HttpResult × W
  unfolding prepare receive send_error
  http_request method url body allowlist w = elim (prepare url.url w) [
    | err e ↦ (err e, w)
    | ok u ↦
        let (answer, w') = net.send method url.url (sent_body method body) w in
        (
          elim answer [
            | err e ↦ err (send_error e)
            | ok response ↦ receive url.url allowlist response
          ],
          w',
        )
  ]
