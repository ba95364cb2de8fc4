-- ===== src/Configuration/Tests.antt =====
-- Configurations from a JSON library that knows one document, and from system properties.
use Prim.Native.String.{String}
use text.Mathlib.Text.{◌==◌}
use xrtransport.Common.{ℕ, ◌≡◌, ◌↔◌, refl, Option, none, some, if◌then◌else◌}
use xrtransport.Configuration.Load.{
  Json, load_config, from_json, from_parsed, by_type, unix_from, tcp_from, port_property,
  checked_port, from_android_system_properties, unix_config, tcp_config, loaded, config_exception,
}
use xrtransport.Configuration.Says.{Says, PortProperty, Describes, load_config_iff}

-- The document is a path of a Unix socket.
abbrev one_document : Json String
one_document = record {
  parse = λ text. some text;
  get_string = λ d key. if key == "transport_type" then some "unix" else some d;
  get_u16 = λ d key. none;
}

abbrev contents : String → String
contents path = "/tmp/xrtransport.sock"

abbrev properties : String → String → Option String
properties port name =
    if name == "xrtransport.transport_type"
    then some "tcp"
    else (if name == "xrtransport.port" then some port else some "10.0.2.2")

abbrev stoul : String → Option ℕ
stoul text = if text == "70000" then some 70000 else (if text == "5000" then some 5000 else none)

load_unix :
    load_config one_document contents none "config.json"
    ≡ loaded (unix_config "/tmp/xrtransport.sock")
unfolding load_config from_json from_parsed by_type unix_from
load_unix = refl

load_tcp :
    from_android_system_properties (properties "5000") stoul ≡ loaded (tcp_config "10.0.2.2" 5000)
unfolding from_android_system_properties by_type tcp_from port_property checked_port
load_tcp = refl

port_too_large : from_android_system_properties (properties "70000") stoul ≡ config_exception
unfolding from_android_system_properties by_type tcp_from port_property checked_port
port_too_large = refl

load_config_iff_example :
    ((load_config one_document contents (some "other.json") "config.json"
        ≡ loaded (tcp_config "10.0.2.2" 5000))
      ↔ Describes one_document "/tmp/xrtransport.sock" (tcp_config "10.0.2.2" 5000))
    × ((load_config one_document contents none "config.json" ≡ loaded (tcp_config "10.0.2.2" 5000))
        ↔ Describes one_document "/tmp/xrtransport.sock" (tcp_config "10.0.2.2" 5000))
    × ((from_android_system_properties (properties "5000") stoul
          ≡ loaded (tcp_config "10.0.2.2" 5000))
        ↔ Says
            (some "tcp")
            (some "10.0.2.2")
            (some "10.0.2.2")
            (PortProperty (properties "5000") stoul)
            (tcp_config "10.0.2.2" 5000))
load_config_iff_example =
    load_config_iff one_document (properties "5000") stoul contents "other.json" "config.json"
      (tcp_config "10.0.2.2" 5000)
