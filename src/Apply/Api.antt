-- ===== src/Apply/Api.antt =====
-- What scripts/fw_apply_direct.py calls of the lib-opnsense client: the managers' `ensure` and the
-- client's `post`. The library is not part of the repository, so it is a parameter.
use ansible_platform.Prelude.{String, Bool}
use ansible_platform.Prelude.Value.{Scalar, Value, Entry}

-- The manager classes that the script imports.
pub data Manager : Type 0 where
  fw_alias fw_filter fw_source_nat fw_dnat : Manager
  ub_host_override ub_forward : Manager
  kea4_subnet kea6_subnet : Manager
  dnsmasq_settings dnsmasq_tag dnsmasq_host dnsmasq_range dnsmasq_domain dnsmasq_boot : Manager
  dnsmasq_option dnsmasq_service : Manager
  radvd_entry radvd_service : Manager

-- What `ensure` returns: an object, which has these members, or a dict, where a missing one reads
-- `null`.
pub record EnsureResult : Type 0 where
  pub is_dict : Bool
  pub action : Scalar
  pub uuid : Scalar
  pub changed : Scalar

pub data Reply : Type 0 where
  returned : EnsureResult → Reply
  opnsense_error : Reply
  other_error : Reply

-- The body of a `post`: nothing, or `{key: {"general": ...}}`.
pub data Body : Type 0 where
  empty : Body
  general : String → Entry → Body

-- The device behind the client: `ensure manager state payload check_mode`, and `post path body`,
-- which answers `false` where the client raises.
pub record Firewall : Type 1 where
  pub World : Type 0
  pub ensure : Manager → Value → Entry → Bool → World → Reply × World
  pub post : String → Body → World → Bool × World
