-- ===== src/Address/Examples.antt =====
-- Runs of the model of src/net/Address.h, with the sizes of Linux.
use hwnet.Prelude.{◌≡◌, refl, true, false, []}
use hwnet.Address.{
  Sizes, malformed, unsupported, is_vaild, addr_len, make_by_sock_addr, make_ip4_addr, new_addr,
}

abbrev linux : Sizes
linux = record { in_size = 16; in6_size = 28; un_size = 110 }

default_run : is_vaild new_addr ≡ false
unfolding is_vaild new_addr
default_run = refl

unsupported_run : is_vaild (make_ip4_addr unsupported 80) ≡ false
unfolding is_vaild make_ip4_addr
unsupported_run = refl

-- A text that is no address is not refused.
malformed_run : is_vaild (make_ip4_addr malformed 80) ≡ true
unfolding is_vaild make_ip4_addr
malformed_run = refl

in6_run : addr_len linux (make_by_sock_addr linux [] 28) ≡ 28
unfolding addr_len make_by_sock_addr
in6_run = refl

-- The length of a local address that accept gives for a socket with no name.
unnamed_run : is_vaild (make_by_sock_addr linux [] 2) ≡ false
unfolding is_vaild make_by_sock_addr
unnamed_run = refl
