-- ===== src/Configuration/Load.antt =====
-- src/common/config/config.cpp and include/xrtransport/config/config.h. The JSON library, the system
-- properties and `stoul` are parameters; `none` stands for an exception or a missing property.
use Prim.Native.String.{String}
use text.Mathlib.Text.{◌==◌}
use xrtransport.Common.{ℕ, ◌-◌, ◌^◌, Option, none, some, ltb, if◌then◌else◌}

pub data TransportType : Type 0 where
  tcp unix asg : TransportType

-- A member that the code leaves unset is `none`.
pub record Config : Type 0 where
  pub transport_type : TransportType
  pub ip_address : Option String
  pub port : Option ℕ
  pub unix_path : Option String

-- ConfigException
pub data Loaded : Type 0 where
  loaded : Config → Loaded
  config_exception : Loaded

-- `json::parse`, and `at` with `get` as a string or as a `uint16_t`.
pub record Json (J : Type 0) : Type 0 where
  pub parse : String → Option J
  pub get_string : J → String → Option String
  pub get_u16 : J → String → Option ℕ

abbrev pub tcp_config : String → ℕ → Config
tcp_config ip port = record {
  transport_type = tcp;
  ip_address = some ip;
  port = some port;
  unix_path = none;
}

abbrev pub unix_config : String → Config
unix_config path = record {
  transport_type = unix;
  ip_address = none;
  port = none;
  unix_path = some path;
}

abbrev pub asg_config : Config
asg_config = record { transport_type = asg; ip_address = none; port = none; unix_path = none }

unfoldable pub tcp_from : Option String → Option ℕ → Loaded
tcp_from (some ip) (some port) = loaded (tcp_config ip port)
tcp_from _ _ = config_exception

unfoldable pub unix_from : Option String → Loaded
unix_from (some path) = loaded (unix_config path)
unix_from none = config_exception

-- The choice by the name of the transport type.
unfoldable pub by_type : Option String → Loaded → Loaded → Loaded
by_type none if_tcp if_unix = config_exception
by_type (some type) if_tcp if_unix =
    if type == "tcp"
    then if_tcp
    else (if type == "unix"
        then if_unix
        else (if type == "asg" then loaded asg_config else config_exception))

module _ {J : Type 0} (json : Json J) where
  unfoldable pub from_parsed : Option J → Loaded
  unfolding by_type tcp_from unix_from
  from_parsed none = config_exception
  from_parsed (some data_) =
      by_type (json.get_string data_ "transport_type")
        (tcp_from (json.get_string data_ "ip_address") (json.get_u16 data_ "port"))
        (unix_from (json.get_string data_ "unix_path"))

  unfoldable pub from_json : String → Loaded
  unfolding from_parsed
  from_json text = from_parsed (json.parse text)

  -- `load_config` on Linux: `contents` reads a file, and `compiled_path` is XRTRANSPORT_CONFIG_PATH.
  unfoldable pub load_config : (String → String) → Option String → String → Loaded
  unfolding from_json
  load_config contents none compiled_path = from_json (contents compiled_path)
  load_config contents (some config_path) compiled_path = from_json (contents config_path)

module _ (get_system_property : String → Option String) (stoul : String → Option ℕ) where
  -- The port, which must fit a `uint16_t`.
  unfoldable pub checked_port : Option ℕ → Option ℕ
  checked_port none = none
  checked_port (some port) = if ltb (2 ^ 16 - 1) port then none else some port

  unfoldable pub port_property : Option String → Option ℕ
  unfolding checked_port
  port_property none = none
  port_property (some text) = checked_port (stoul text)

  unfoldable pub from_android_system_properties : Loaded
  unfolding by_type tcp_from unix_from port_property
  from_android_system_properties =
      by_type (get_system_property "xrtransport.transport_type")
        (tcp_from (get_system_property "xrtransport.ip_address")
          (port_property (get_system_property "xrtransport.port")))
        (unix_from (get_system_property "xrtransport.unix_path"))
