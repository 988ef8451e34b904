-- ===== src/Address/Kinds.antt =====
-- Which lengths and texts src/net/Address.h takes for an address.
use hwnet.Prelude.{ℕ, ◌≡◌, refl, List, arith, if◌then◌else◌}
use hwnet.Address.{parsed, malformed, Sizes, is_vaild, addr_len, make_by_sock_addr, make_ip4_addr}

-- An address made of a structure of the system gives its length back if it is valid, and else 0.
addr_len-make_by_sock_addr :
    (z : Sizes) (addr : List ℕ) (len : ℕ)
    → addr_len z (make_by_sock_addr z addr len)
      ≡ (if is_vaild (make_by_sock_addr z addr len) then len else 0)
unfolding addr_len is_vaild make_by_sock_addr
addr_len-make_by_sock_addr z addr len = ground arith

-- A text that is no address makes the address 0.0.0.0.
make_ip4_addr-malformed : (port : ℕ) → make_ip4_addr malformed port ≡ make_ip4_addr (parsed 0) port
unfolding make_ip4_addr
make_ip4_addr-malformed port = refl
