-- ===== src/Configuration/Says.antt =====
-- Which configuration a file or the system properties describe.
use Prim.Native.String.{String}
use text.Mathlib.Text.{◌==◌}
use text.Mathlib.TextEquality.{eq_iff}
use mathlib.Core.Option.{some-injective}
use xrtransport.Common.{
  ℕ, ◌-◌, ◌^◌, ◌<◌, ◌∙◌, ◌≡◌, refl, ap, subst, ◌↔◌, inl, inr, true, false, Option, none, some, ltb,
  arith, Bool-cases, Option-cases,
}
use xrtransport.Configuration.Load.{
  Config, Loaded, loaded, config_exception, Json, tcp_config, unix_config, asg_config, tcp_from,
  unix_from, by_type, from_parsed, from_json, load_config, checked_port, port_property,
  from_android_system_properties,
}

-- A source with these members, and with this port if `Port` holds of it, describes a configuration.
pub data Says (type ip path : Option String) (Port : ℕ → Type 0) : Config → Type 0 where
  is_tcp :
      (address : String) (port : ℕ)
      → type ≡ some "tcp"
      → ip ≡ some address
      → Port port
      → Says type ip path Port (tcp_config address port)
  is_unix :
      (name : String)
      → type ≡ some "unix"
      → path ≡ some name
      → Says type ip path Port (unix_config name)
  is_asg : type ≡ some "asg" → Says type ip path Port asg_config

loaded-injective : (c d : Config) → loaded c ≡ loaded d → c ≡ d
loaded-injective c d e = ap config_of e
  where
    config_of : Loaded → Config
    config_of (loaded x) = x
    config_of config_exception = c

module _ (type ip path : Option String) (Port : ℕ → Type 0) (port : Option ℕ)
    (fits : (p : ℕ) → (port ≡ some p) ↔ Port p) where
  abbrev decided : Loaded
  decided = by_type type (tcp_from ip port) (unix_from path)

  tcp_from-Says :
      (c : Config) → type ≡ some "tcp" → tcp_from ip port ≡ loaded c → Says type ip path Port c
  unfolding tcp_from
  tcp_from-Says c t e = elim (Option-cases ip) [
    | inl n ↦ let k = rw (tcp_from, n) at e in cc
    | inr (i, f) ↦ elim (Option-cases port) [
      | inl n ↦ let k = rw (tcp_from, f, n) at e in cc
      | inr (p, g) ↦
          let k : loaded (tcp_config i p) ≡ loaded c = rw (tcp_from, f, g) at e in
          subst (Says type ip path Port) (loaded-injective _ c k) (is_tcp i p t f ((fits p).0 g))
    ]
  ]

  unix_from-Says :
      (c : Config) → type ≡ some "unix" → unix_from path ≡ loaded c → Says type ip path Port c
  unfolding unix_from
  unix_from-Says c t e = elim (Option-cases path) [
    | inl n ↦ let k = rw (unix_from, n) at e in cc
    | inr (name, f) ↦
        let k : loaded (unix_config name) ≡ loaded c = rw (unix_from, f) at e in
        subst (Says type ip path Port) (loaded-injective _ c k) (is_unix name t f)
  ]

  named : (x name : String) → type ≡ some x → (x == name) ≡ true → type ≡ some name
  named x name t y = t ∙ ap some ((eq_iff x name).0 y)

  by_type-Says : (c : Config) → decided ≡ loaded c → Says type ip path Port c
  unfolding by_type
  by_type-Says c e = elim (Option-cases type) [
    | inl n ↦ let k = rw (by_type, n) at e in cc
    | inr (x, t) ↦ elim (Bool-cases (x == "tcp")) [
      | inl y ↦ tcp_from-Says c (named x "tcp" t y) (rw (by_type, t, y) at e)
      | inr n ↦ elim (Bool-cases (x == "unix")) [
        | inl y ↦ unix_from-Says c (named x "unix" t y) (rw (by_type, t, n, y) at e)
        | inr m ↦ elim (Bool-cases (x == "asg")) [
          | inl y ↦
              let k : loaded asg_config ≡ loaded c = rw (by_type, t, n, m, y) at e in
              subst (Says type ip path Port) (loaded-injective _ c k) (is_asg (named x "asg" t y))
          | inr l ↦ let k = rw (by_type, t, n, m, l) at e in cc
        ]
      ]
    ]
  ]

  Says-by_type : (c : Config) → Says type ip path Port c → decided ≡ loaded c
  unfolding by_type tcp_from unix_from
  Says-by_type _ (is_tcp i p t f g) = rw (by_type, t, f, (fits p).1 g, tcp_from) refl
  Says-by_type _ (is_unix name t f) = rw (by_type, t, f, unix_from) refl
  Says-by_type _ (is_asg t) = rw (by_type, t) refl

  by_type_iff : (c : Config) → (decided ≡ loaded c) ↔ Says type ip path Port c
  by_type_iff c = (by_type-Says c, Says-by_type c)

-- The port of the system properties.
abbrev pub PortProperty : (String → Option String) → (String → Option ℕ) → ℕ → Type 0
PortProperty properties stoul port =
    (text : String) × (properties "xrtransport.port" ≡ some text)
    × (stoul text ≡ some port)
    × (port < 2 ^ 16)

port_property_iff :
    (properties : String → Option String) (stoul : String → Option ℕ) (port : ℕ)
    → (port_property properties stoul (properties "xrtransport.port") ≡ some port)
      ↔ PortProperty properties stoul port
unfolding port_property checked_port
port_property_iff properties stoul port = (
  λ e. elim (Option-cases (properties "xrtransport.port")) [
    | inl n ↦ let k = rw (n, port_property) at e in cc
    | inr (text, f) ↦ elim (Option-cases (stoul text)) [
      | inl n ↦ let k = rw (f, port_property, n, checked_port) at e in cc
      | inr (p, g) ↦ elim (Bool-cases (ltb (2 ^ 16 - 1) p)) [
        | inl y ↦ let k = rw (f, port_property, g, checked_port, y) at e in cc
        | inr z ↦
            let q : p ≡ port =
              some-injective _ _ (rw (f, port_property, g, checked_port, z) at e) in
            (text, f, g ∙ ap some q, subst (λ x. x < 2 ^ 16) q (ground (arith, z)))
      ]
    ]
  ],
  λ x.
      let (text, f, g, h) = x in
      let z : ltb (2 ^ 16 - 1) port ≡ false = ground (arith, h) in
      rw (f, port_property, g, checked_port, z) refl,
)

module _ {J : Type 0} (json : Json J) where
  -- What a file with these contents describes.
  abbrev pub Describes : String → Config → Type 0
  Describes text c =
      (d : J) × (json.parse text ≡ some d)
      × Says (json.get_string d "transport_type") (json.get_string d "ip_address")
          (json.get_string d "unix_path") (λ p. json.get_u16 d "port" ≡ some p) c

  from_json_iff : (text : String) (c : Config) → (from_json json text ≡ loaded c) ↔ Describes text c
  unfolding from_json from_parsed
  from_json_iff text c = (
    λ e. elim (Option-cases (json.parse text)) [
      | inl n ↦ let k = rw (from_json, n, from_parsed) at e in cc
      | inr (d, f) ↦ (
        d,
        f,
        by_type-Says (json.get_string d "transport_type") (json.get_string d "ip_address")
            (json.get_string d "unix_path") (λ p. json.get_u16 d "port" ≡ some p)
            (json.get_u16 d "port") (λ p. (λ x. x, λ x. x)) c (rw (from_json, f, from_parsed) at e),
      )
    ],
    λ x.
        let (d, f, k) = x in
        rw (from_json, f, from_parsed)
          (Says-by_type (json.get_string d "transport_type") (json.get_string d "ip_address")
            (json.get_string d "unix_path") (λ p. json.get_u16 d "port" ≡ some p)
            (json.get_u16 d "port") (λ p. (λ y. y, λ y. y)) c k),
  )

  -- A configuration is loaded exactly if the source describes it, and else loading throws. A file,
  -- which is the one that is named or else the compiled-in one, describes it by its members: a TCP
  -- one by type, address and port, a Unix one by type and path, an ASG one by type alone. The system
  -- properties do it likewise, with a port that is a number below 2^16.
  pub load_config_iff :
      (properties : String → Option String) (stoul : String → Option ℕ) (contents : String → String)
      (config_path compiled_path : String) (c : Config)
      → ((load_config json contents (some config_path) compiled_path ≡ loaded c)
          ↔ Describes (contents config_path) c)
        × ((load_config json contents none compiled_path ≡ loaded c)
            ↔ Describes (contents compiled_path) c)
        × ((from_android_system_properties properties stoul ≡ loaded c)
            ↔ Says
                (properties "xrtransport.transport_type")
                (properties "xrtransport.ip_address")
                (properties "xrtransport.unix_path")
                (PortProperty properties stoul)
                c)
  unfolding load_config from_android_system_properties
  load_config_iff properties stoul contents config_path compiled_path c = (
    from_json_iff (contents config_path) c,
    from_json_iff (contents compiled_path) c,
    by_type_iff (properties "xrtransport.transport_type") (properties "xrtransport.ip_address")
        (properties "xrtransport.unix_path") (PortProperty properties stoul) _
        (port_property_iff properties stoul) c,
  )
