-- ===== src/UrlGuard/Tests.antt =====
-- Runs of the address tests, and their theorems at these runs.
use curator_rs.Prelude.{◌≡◌, refl, true, false, not, any, arith}
use curator_rs.UrlGuard.Addresses.{Ipv4Addr, v4, v6, is_public_ipv4, is_public_ipv6, is_public_ip}
use curator_rs.UrlGuard.Blocks.{
  number, lies_in, kept_out, mapped, is_public_ipv4_blocks, is_public_ip-mapped,
}

model : Unit {0}
unfolding is_public_ipv4 is_public_ipv6 is_public_ip
model = tt

abbrev tailnet : Ipv4Addr
tailnet = record { a = 100; b = 64; c = 0; d = 1 }

abbrev localhost : Ipv4Addr
localhost = record { a = 127; b = 0; c = 0; d = 1 }

tailnet_test : is_public_ip (v4 tailnet) ≡ false
unfolding model
tailnet_test = refl

localhost_test : is_public_ip (v4 localhost) ≡ false
unfolding model
localhost_test = refl

link_local_test :
    is_public_ip
      (v6 (record { s0 = 0xfe80; s1 = 0; s2 = 0; s3 = 0; s4 = 0; s5 = 0; s6 = 0; s7 = 1 }))
    ≡ false
unfolding model
link_local_test = refl

is_public_ipv4_blocks_example :
    is_public_ip (v4 tailnet) ≡ not (any (lies_in (number tailnet)) kept_out)
is_public_ipv4_blocks_example =
    is_public_ipv4_blocks tailnet (omega arith) (omega arith) (omega arith) (omega arith)

is_public_ip-mapped_example : is_public_ip (v6 (mapped localhost)) ≡ true
is_public_ip-mapped_example = is_public_ip-mapped localhost
