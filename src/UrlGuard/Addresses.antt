-- ===== src/UrlGuard/Addresses.antt =====
-- src/url_guard.rs: `is_public_ip`, with the tests of `std::net` on addresses that it uses.
use curator_rs.Prelude.{ℕ, ◌-◌, ◌/◌, ◌%◌, Bool, ◌&&◌, ◌||◌, not, leb, ◌==◌}

-- Octets are below 256.
pub record Ipv4Addr : Type 0 where
  pub a : ℕ
  pub b : ℕ
  pub c : ℕ
  pub d : ℕ

-- The eight segments of sixteen bits.
pub record Ipv6Addr : Type 0 where
  pub s0 : ℕ
  pub s1 : ℕ
  pub s2 : ℕ
  pub s3 : ℕ
  pub s4 : ℕ
  pub s5 : ℕ
  pub s6 : ℕ
  pub s7 : ℕ

pub data IpAddr : Type 0 where
  v4 : Ipv4Addr → IpAddr
  v6 : Ipv6Addr → IpAddr

abbrev pub between : ℕ → ℕ → ℕ → Bool
between first last n = leb first n && leb n last

-- `is_unspecified`, `is_loopback`, `is_private`, `is_link_local`, `is_broadcast` and `is_multicast`
-- in this order, then the ranges that the source writes out.
unfoldable pub is_public_ipv4 : Ipv4Addr → Bool
is_public_ipv4 x = not (
    x.a == 0 && x.b == 0 && x.c == 0 && x.d == 0
    || x.a == 127
    || (x.a == 10 || x.a == 172 && between 16 31 x.b || x.a == 192 && x.b == 168)
    || x.a == 169 && x.b == 254
    || x.a == 255 && x.b == 255 && x.c == 255 && x.d == 255
    || between 224 239 x.a
    || x.a == 100 && between 64 127 x.b
    || x.a == 198 && between 18 19 x.b
    || x.a == 192 && (x.b == 0 || x.b == 2 || x.b == 168)
    || x.a == 198 && x.b == 51
    || x.a == 203 && x.b == 0
    || leb 224 x.a)

abbrev pub front_is_zero : Ipv6Addr → Bool
front_is_zero x =
    x.s0 == 0 && x.s1 == 0 && x.s2 == 0 && x.s3 == 0 && x.s4 == 0 && x.s5 == 0 && x.s6 == 0

-- `is_unspecified`, `is_loopback`, `is_multicast` and `is_unicast_link_local`, then `fc00::/7`. The
-- masks keep the upper bits of a number.
unfoldable pub is_public_ipv6 : Ipv6Addr → Bool
is_public_ipv6 x =
    let first = x.s0 / 256 in
    not (
      front_is_zero x && x.s7 == 0
      || front_is_zero x && x.s7 == 1
      || first == 0xff
      || x.s0 - x.s0 % 64 == 0xfe80
      || first - first % 2 == 0xfc)

unfoldable pub is_public_ip : IpAddr → Bool
is_public_ip (v4 x) = is_public_ipv4 x
is_public_ip (v6 x) = is_public_ipv6 x
