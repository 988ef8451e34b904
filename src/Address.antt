-- ===== src/Address.antt =====
-- src/net/Address.h: the addresses of sockets. The sizes of the three structures of the system and the
-- texts that inet_ntop and snprintf make are parameters; what inet_pton says is an argument.
mod Kinds
mod Examples
use hwnet.Prelude.{
  ℕ, ◌%◌, ◌^◌, Bool, true, false, not, ◌&&◌, List, [], ◌++◌, Option, none, some, ◌==◌,
  if◌then◌else◌,
}

-- addrType, in the order of its numbers.
pub data AddrType : Type 0 where
  empty ipv4 ipv6 unix : AddrType

-- sa_family_t, with 0 where none was set.
pub data Family : Type 0 where
  unspecified inet inet6 local : Family

-- The union: all zero; or the family, the port and the number of an IPv4 address; or the bytes of a
-- structure that was copied.
pub data Sockaddr : Type 0 where
  zeroed : Sockaddr
  in4 : ℕ → ℕ → Sockaddr
  copied : List ℕ → Sockaddr

pub record Addr : Type 0 where
  pub addr_type : AddrType
  pub family : Family
  pub sockaddr : Sockaddr

-- Addr()
unfoldable pub new_addr : Addr
new_addr = record { addr_type = empty; family = unspecified; sockaddr = zeroed }

-- What inet_pton says: 1 and the number, 0 for a text that is no address, -1 for another family.
pub data Pton : Type 0 where
  parsed : ℕ → Pton
  malformed unsupported : Pton

abbrev number_of : Pton → ℕ
number_of (parsed n) = n
number_of malformed = 0
number_of unsupported = 0

abbrev is_negative : Pton → Bool
is_negative (parsed n) = false
is_negative malformed = false
is_negative unsupported = true

-- MakeIP4Addr, for a port that is not negative; htons takes the low 16 bits of the port, and ntohs gives them back.
unfoldable pub make_ip4_addr : Pton → ℕ → Addr
make_ip4_addr answer port =
    let sockaddr = in4 (port % 2 ^ 16) (number_of answer) in
    if is_negative answer
    then record { addr_type = empty; family = unspecified; sockaddr = sockaddr }
    else record { addr_type = ipv4; family = inet; sockaddr = sockaddr }

-- IsVaild
unfoldable pub is_vaild : Addr → Bool
is_vaild a = elim a.addr_type [ empty ↦ false | _ ↦ true ]

-- sizeof of sockaddr_in, sockaddr_in6 and sockaddr_un
pub record Sizes : Type 0 where
  pub in_size : ℕ
  pub in6_size : ℕ
  pub un_size : ℕ

-- MakeBySockAddr
unfoldable pub make_by_sock_addr : Sizes → List ℕ → ℕ → Addr
make_by_sock_addr z addr len =
    if len == z.in_size
    then record { addr_type = ipv4; family = inet; sockaddr = copied addr }
    else if len == z.in6_size
    then record { addr_type = ipv6; family = inet6; sockaddr = copied addr }
    else if len == z.un_size
    then record { addr_type = unix; family = local; sockaddr = copied addr }
    else record { addr_type = empty; family = unspecified; sockaddr = zeroed }

-- AddrLen
unfoldable pub addr_len : Sizes → Addr → ℕ
addr_len z a = elim a.addr_type [
  | ipv4 ↦ z.in_size
  | ipv6 ↦ z.in6_size
  | unix ↦ z.un_size
  | empty ↦ 0
]
