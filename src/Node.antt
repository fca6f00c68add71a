-- ===== src/Node.antt =====
-- `struct node` and its constants (src/include/structs.h, enums.h, mtu_config.h).
-- The padding members carry no data and are left out. A socket address and the payload are lists of
-- bytes: 28 for `ipv6`, 16 for `ipv4`, 1420 for `value`.
pub mod Cmp
pub mod Tests
use dmmr_orbit.Base.{ℕ, ◌-◌, ◌*◌, List}
use dmmr_orbit.Base.Int.{ℤ}

-- `DEFAULT_MTU` of the profile that is built when no other is asked for.
abbrev pub default_mtu : ℕ
default_mtu = 1500

abbrev pub value_buffer_size : ℕ
value_buffer_size = default_mtu - 80

abbrev pub value_output_size : ℕ
value_output_size = 6

abbrev pub value_output_buffer_size : ℕ
value_output_buffer_size = value_buffer_size * value_output_size

-- `AF_INET` and `AF_INET6` as Linux numbers them; an `ezp_addr_type` is any int.
abbrev pub af_inet : ℕ
af_inet = 2

abbrev pub af_inet6 : ℕ
af_inet6 = 10

abbrev pub ezp_dns : ℕ
ezp_dns = 0

abbrev pub ezp_invalid : ℕ
ezp_invalid = 0xFFFF

pub record Node : Type 0 where
  pub arrival : ℕ
  pub deadline : ℕ
  pub value_size : ℕ
  pub port : ℕ
  pub flags : ℕ
  pub family : ℕ
  pub fd : ℤ
  pub ipv6 : List ℕ
  pub ipv4 : List ℕ
  pub value : List ℕ
