-- ===== src/Main/Gateway.antt =====
-- The calls of a program that was given a gateway.
use xotpad.Base.{
  ℕ, ◌≡◌, refl, ap, ◌∙◌, Bool, false, [], contains, Buf, Option, some, Result, ok, ◌>>=◌,
}
use xotpad.X121.{X121Addr}
use xotpad.X28.Text.{codes}
use xotpad.Xot.Resolver.{RegexLibrary, new, connect_to, connect}
use xotpad.Xot.Resolver.Lookup.{lookup-add}
use xotpad.Main.{Config, default_profile, resolver_of, load_config}

-- With a gateway and the default profile, the configuration is loaded: no `unwrap` of the profile fails,
-- and it is the profile that is found. When the library takes the expression `.*`, which matches every
-- text and has no groups, and the gateway has no backslash, every call connects to this gateway at the
-- port 1998, whatever its address.
pub load_config-connect :
    {Regex Link : Type 0} (library : RegexLibrary Regex) (x25_org : Bool) (regex : Regex)
    (tcp_connect : Buf → ℕ → Result Link) (local_addr : Option X121Addr) (gateway : Buf)
    → library.new (codes ".*") ≡ some regex
    → ((text : Buf) → library.captures regex text ≡ some [])
    → contains gateway b'\\' ≡ false
    → (config : Config Regex) × (load_config library x25_org (record {
      local_addr = local_addr;
      xot_gateway = some gateway;
      x3_profile = codes "default";
    })
        ≡ ok config)
      × ((addr : X121Addr)
          → connect library tcp_connect addr config.resolver ≡ tcp_connect gateway 1998)
unfolding load_config default_profile resolver_of connect connect_to new
load_config-connect library x25_org regex tcp_connect local_addr gateway is matches plain = (
  _,
  refl,
  λ addr.
      ap (λ found. found >>= connect_to library tcp_connect)
        (lookup-add library (codes ".*") gateway regex [] new addr is (matches addr.addr) plain).1
      ∙ refl,
)
