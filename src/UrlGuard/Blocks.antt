-- ===== src/UrlGuard/Blocks.antt =====
-- src/url_guard.rs, `is_public_ip`: the blocks of addresses that it keeps out.
use curator_rs.Prelude.{
  ℕ, ◌+◌, ◌*◌, ◌<◌, ◌≡◌, Bool, true, false, not, List, [], ◌∷◌, arith, any, ◌&&◌, leb, ◌==◌, ◌||◌,
  refl, sym, ap, ◌∙◌,
}
use curator_rs.UrlGuard.Addresses.{
  between, Ipv4Addr, Ipv6Addr, v4, v6, is_public_ip, is_public_ipv4, is_public_ipv6,
}

-- An address as a number of 32 bits.
unfoldable pub number : Ipv4Addr → ℕ
number x = ((x.a * 256 + x.b) * 256 + x.c) * 256 + x.d

unfoldable pub lies_in : ℕ → ℕ × ℕ → Bool
lies_in n block = leb block.0 n && leb n block.1

-- The first and the last address of each block: 0.0.0.0/32, 10/8, 100.64/10, 127/8, 169.254/16,
-- 172.16/12, 192.0/16, 192.2/16, 192.168/16, 198.18/15, 198.51/16, 203.0/16 and 224/3.
abbrev pub kept_out : List (ℕ × ℕ)
kept_out =
    (0, 0)
    ∷ (167772160, 184549375)
    ∷ (1681915904, 1686110207)
    ∷ (2130706432, 2147483647)
    ∷ (2851995648, 2852061183)
    ∷ (2886729728, 2887778303)
    ∷ (3221225472, 3221291007)
    ∷ (3221356544, 3221422079)
    ∷ (3232235520, 3232301055)
    ∷ (3323068416, 3323199487)
    ∷ (3325231104, 3325296639)
    ∷ (3405774848, 3405840383)
    ∷ (3758096384, 4294967295)
    ∷ []

or_cong : {a a' b b' : Bool} → a ≡ a' → b ≡ b' → (a || b) ≡ (a' || b')
or_cong p q = cc

-- The source's order of the tests, and theirs.
reordered :
    (z l p q e b0 b2 b168 ll br mc c t s u hi : Bool)
    → (br && not hi) ≡ false
    → (mc && not hi) ≡ false
    → not (
        z
        || l
        || (p || q || e && b168)
        || ll
        || br
        || mc
        || c
        || t
        || e && (b0 || b2 || b168)
        || s
        || u
        || hi)
      ≡ not (
          z
          || (p
              || (c
                  || (l
                      || (ll
                          || (q
                              || (e && b0
                                  || (e && b2
                                      || (e && b168 || (t || (s || (u || (hi || false)))))))))))))
reordered z l p q e b0 b2 b168 ll br mc c t s u true v w = ground arith
reordered z l p q e b0 b2 b168 ll br mc c t s u false v w = ground arith

module _ (x : Ipv4Addr) (h : x.b < 256) (i : x.c < 256) (j : x.d < 256) where
  lies_in-octet : (k : ℕ) → lies_in (number x) (k * 16777216, k * 16777216 + 16777215) ≡ (x.a == k)
  unfolding lies_in number
  lies_in-octet k = ground arith

  lies_in-octets :
      (k l m : ℕ)
      → m < 256
      → lies_in (number x) (k * 16777216 + l * 65536, k * 16777216 + m * 65536 + 65535)
        ≡ (x.a == k && between l m x.b)
  unfolding lies_in number
  lies_in-octets k l m t = ground arith

  lies_in-pair :
      (k l : ℕ)
      → l < 256
      → lies_in (number x) (k * 16777216 + l * 65536, k * 16777216 + l * 65536 + 65535)
        ≡ (x.a == k && x.b == l)
  unfolding lies_in number
  lies_in-pair k l t = ground arith

  lies_in-zero : lies_in (number x) (0, 0) ≡ (x.a == 0 && x.b == 0 && x.c == 0 && x.d == 0)
  unfolding lies_in number
  lies_in-zero = ground arith

  lies_in-upper : x.a < 256 → lies_in (number x) (3758096384, 4294967295) ≡ leb 224 x.a
  unfolding lies_in number
  lies_in-upper t = ground arith

  -- The tests of the blocks, in their order.
  tests : Bool
  tests =
      x.a == 0 && x.b == 0 && x.c == 0 && x.d == 0
      || (x.a == 10
          || (x.a == 100 && between 64 127 x.b
              || (x.a == 127
                  || (x.a == 169 && x.b == 254
                      || (x.a == 172 && between 16 31 x.b
                          || (x.a == 192 && x.b == 0
                              || (x.a == 192 && x.b == 2
                                  || (x.a == 192 && x.b == 168
                                      || (x.a == 198 && between 18 19 x.b
                                          || (x.a == 198 && x.b == 51
                                              || (x.a == 203 && x.b == 0
                                                  || (leb 224 x.a || false))))))))))))

  any-tests : x.a < 256 → any (lies_in (number x)) kept_out ≡ tests
  unfolding tests
  any-tests t = or_cong lies_in-zero (
      or_cong (lies_in-octet 10) (
        or_cong (lies_in-octets 100 64 127 (omega arith)) (
          or_cong (lies_in-octet 127) (
            or_cong (lies_in-pair 169 254 (omega arith)) (
              or_cong (lies_in-octets 172 16 31 (omega arith)) (
                or_cong (lies_in-pair 192 0 (omega arith)) (
                  or_cong (lies_in-pair 192 2 (omega arith)) (
                    or_cong (lies_in-pair 192 168 (omega arith)) (
                      or_cong (lies_in-octets 198 18 19 (omega arith)) (
                        or_cong (lies_in-pair 198 51 (omega arith)) (
                          or_cong (lies_in-pair 203 0 (omega arith))
                            (or_cong (lies_in-upper t) refl))))))))))))

  multicast-upper : (between 224 239 x.a && not (leb 224 x.a)) ≡ false
  multicast-upper = ground arith

  broadcast-upper :
      ((x.a == 255 && x.b == 255 && x.c == 255 && x.d == 255) && not (leb 224 x.a)) ≡ false
  broadcast-upper = ground arith

  public-tests : is_public_ip (v4 x) ≡ not tests
  unfolding is_public_ip is_public_ipv4 tests
  public-tests =
      reordered (x.a == 0 && x.b == 0 && x.c == 0 && x.d == 0) (x.a == 127) (x.a == 10)
        (x.a == 172 && between 16 31 x.b) (x.a == 192) (x.b == 0) (x.b == 2) (x.b == 168)
        (x.a == 169 && x.b == 254) (x.a == 255 && x.b == 255 && x.c == 255 && x.d == 255)
        (between 224 239 x.a) (x.a == 100 && between 64 127 x.b) (x.a == 198 && between 18 19 x.b)
        (x.a == 198 && x.b == 51) (x.a == 203 && x.b == 0) (leb 224 x.a) broadcast-upper
        multicast-upper

  -- An IPv4 address, its octets below 256, is public exactly if it lies in none of the blocks that
  -- are kept out.
  pub is_public_ipv4_blocks :
      x.a < 256 → is_public_ip (v4 x) ≡ not (any (lies_in (number x)) kept_out)
  is_public_ipv4_blocks t = public-tests ∙ ap not (sym (any-tests t))

-- The address `::ffff:a.b.c.d` that stands for an IPv4 address.
abbrev pub mapped : Ipv4Addr → Ipv6Addr
mapped x = record {
  s0 = 0;
  s1 = 0;
  s2 = 0;
  s3 = 0;
  s4 = 0;
  s5 = 65535;
  s6 = x.a * 256 + x.b;
  s7 = x.c * 256 + x.d;
}

-- The address `::ffff:a.b.c.d` of every IPv4 address is public: also where the IPv4 address itself is
-- that of the machine or of the local network.
pub is_public_ip-mapped : (x : Ipv4Addr) → is_public_ip (v6 (mapped x)) ≡ true
unfolding is_public_ip is_public_ipv6
is_public_ip-mapped x = ground arith
