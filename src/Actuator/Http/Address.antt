-- ===== src/Actuator/Http/Address.antt =====
-- safa-core/src/actuator/http.rs: the IPv4 addresses that are never contacted, as ranges of numbers.
use ama.Prelude.{ℕ, ◌+◌, ◌*◌, ◌≤◌, ◌≡◌, ◌↔◌, ◌⊎◌, true, arith}
use ama.Actuator.Http.{Ipv4Addr, v4, is_private_ip}

-- The address as a number.
abbrev pub number : Ipv4Addr → ℕ
number ip = ((ip.a * 256 + ip.b) * 256 + ip.c) * 256 + ip.d

abbrev pub In : ℕ → ℕ → ℕ → Type 0
In first last n = (first ≤ n) × (n ≤ last)

-- 0.0.0.0/8, 10.0.0.0/8, 127.0.0.0/8, 169.254.0.0/16, 172.16.0.0/12, 192.168.0.0/16 and
-- 255.255.255.255.
abbrev pub Reserved : ℕ → Type 0
Reserved n =
    In 0x00000000 0x00ffffff n
    ⊎ In 0x0a000000 0x0affffff n
    ⊎ In 0x7f000000 0x7fffffff n
    ⊎ In 0xa9fe0000 0xa9feffff n
    ⊎ In 0xac100000 0xac1fffff n
    ⊎ In 0xc0a80000 0xc0a8ffff n
    ⊎ (n ≡ 0xffffffff)

-- An IPv4 address is refused exactly if its number lies in one of the reserved ranges.
pub is_private_ip-Reserved :
    (ip : Ipv4Addr)
    → ip.a ≤ 255
    → ip.b ≤ 255
    → ip.c ≤ 255
    → ip.d ≤ 255
    → (is_private_ip (v4 ip) ≡ true) ↔ Reserved (number ip)
unfolding is_private_ip
is_private_ip-Reserved ip ha hb hc hd = (λ h. ground arith, λ h. ground arith)
