-- ===== src/Tests/Network.antt =====
-- safa-core/src/actuator/http.rs: a request over a network of one host.
use ama.Prelude.{
  ℕ, suc, ◌≡◌, refl, ◌⊎◌, ◌↔◌, true, false, String, Option, none, some, [], ◌∷◌, arith, string_eq,
}
use ama.Errors.{Result, ok, err, AmaError}
use ama.Newtypes.{HttpMethod}
use ama.Newtypes.Url.{AllowlistedUrl}
use ama.Actuator.Http.{
  SendError, Ipv4Addr, IpAddr, v4, is_private_ip, HttpResponse, Network, http_request,
}
use ama.Actuator.Http.Address.{Reserved, number, is_private_ip-Reserved}
use ama.Actuator.Http.Safe.{Prepared, SentBody, Accepted, http_request-sent, http_request-Accepted}
use ama.Tests.Fixtures.{config}

abbrev metadata : Ipv4Addr
metadata = record { a = 169; b = 254; c = 169; d = 254 }

is_private_ip-Reserved_example : (is_private_ip (v4 metadata) ≡ true) ↔ Reserved (number metadata)
is_private_ip-Reserved_example =
    is_private_ip-Reserved metadata (omega arith) (omega arith) (omega arith) (omega arith)

abbrev host : IpAddr
host = v4 (record { a = 93; b = 184; c = 215; d = 14 })

abbrev answer : HttpResponse
answer = record {
  remote_addr = some host;
  url = "https://a.org/x";
  status = 200;
  bytes = ok (104 ∷ []);
}

-- The world counts the requests that were sent.
abbrev pub network : Network ℕ
network = record {
  parse_host = λ url. ok (some "a.org");
  lookup_host = λ name w. ok (host ∷ []);
  build_client = ok tt;
  send = λ method url body w. (ok answer, suc w);
  show_ip = λ ip. "";
  from_utf8 = λ bytes. some "h";
}

abbrev url : AllowlistedUrl
url = record { url = "https://a.org/x" }

http_request-sent_example :
    (((http_request network HttpMethod.get url none config.allowlist 0).1 ≡ 0)
      × ((e : AmaError) × ((http_request network HttpMethod.get url none config.allowlist 0).0
            ≡ err e)))
    ⊎ (Prepared network "https://a.org/x" 0
        × ((sent : Option String) × SentBody HttpMethod.get none sent
            × ((http_request network HttpMethod.get url none config.allowlist 0).1 ≡ 1)))
http_request-sent_example = http_request-sent network HttpMethod.get url none config.allowlist 0

http_request-Accepted_example :
    (sent : Option String) × (response : HttpResponse) × SentBody HttpMethod.get none sent
    × (◌≡◌ {A = Result SendError HttpResponse} (ok answer) (ok response))
    × Accepted network "https://a.org/x" config.allowlist response
        (record { status_code = 200; body = "h"; truncated = false })
unfolding http_request
http_request-Accepted_example =
    http_request-Accepted network HttpMethod.get url none config.allowlist 0
      (record { status_code = 200; body = "h"; truncated = false }) refl
