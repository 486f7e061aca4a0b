-- ===== src/Main.antt =====
-- The configuration of the program: src/main.rs.
pub mod Gateway
use xotpad.Base.{
  ℕ, Bool, true, false, not, List, [], ◌∷◌, if◌then◌else◌, Buf, Option, none, some, Result, ok, err,
  panic, stuck, ◌>>=◌, ◌>>◌, assert,
}
use xotpad.X121.{X121Addr, null}
use xotpad.Seq.{X25Modulo, normal}
use xotpad.Vc.Params.{X25Params}
use xotpad.X3.{
  Checked, valid, invalid, echo_try_from, forward_try_from, lf_insert_try_from, editing_try_from,
}
use xotpad.X3.PadParams.{PadParams}
use xotpad.X3.UserPadParams.{
  UserPadParams, char_delete_try_from, line_delete_try_from, line_display_try_from,
}
use xotpad.X28.Text.{codes}
use xotpad.X29.{buf_eq}
use xotpad.Xot.Resolver.{RegexLibrary, XotResolver, new, add}

-- The fields of `Args` that `load_config` reads.
pub record Args : Type 0 where
  pub local_addr : Option X121Addr
  pub xot_gateway : Option Buf
  pub x3_profile : Buf

pub record Config (Regex : Type 0) : Type 0 where
  pub x25_params : X25Params
  pub x3_profiles : List (Buf × PadParams UserPadParams)
  pub resolver : XotResolver Regex
  pub x3_profile : Buf

unfoldable pub unwrap {ℓ} : {A : Type ℓ} → Checked A → Result A
unwrap (valid a) = ok a
unwrap (invalid e) = panic

-- Times are in seconds.
unfoldable pub default_x25_params : Option X121Addr → X25Params
default_x25_params local_addr = record {
  addr = elim local_addr [ some addr ↦ addr | none ↦ null ];
  modulo = normal;
  send_packet_size = 128;
  send_window_size = 2;
  recv_packet_size = 128;
  recv_window_size = 2;
  t21 = 5;
  t22 = 5;
  t23 = 5;
}

unfoldable pub default_profile : Result (PadParams UserPadParams)
unfolding unwrap echo_try_from forward_try_from lf_insert_try_from editing_try_from
    char_delete_try_from line_delete_try_from line_display_try_from
default_profile = do
  echo ← unwrap (echo_try_from 1)
  forward ← unwrap (forward_try_from 126)
  lf_insert ← unwrap (lf_insert_try_from 0)
  editing ← unwrap (editing_try_from 0)
  char_delete ← unwrap (char_delete_try_from 127)
  line_delete ← unwrap (line_delete_try_from 24)
  line_display ← unwrap (line_display_try_from 18)
  ok (record {
    echo = echo;
    forward = forward;
    idle = record { raw = 0 };
    lf_insert = lf_insert;
    editing = editing;
    delegate = some (record {
      char_delete = char_delete;
      line_delete = line_delete;
      line_display = line_display;
    });
  })

module _ {Regex : Type 0} (library : RegexLibrary Regex) (x25_org : Bool) where
  -- Whether the feature `x25_org` is built in is the second parameter; the result of `add` is dropped.
  unfoldable pub resolver_of : Option Buf → XotResolver Regex
  unfolding add new
  resolver_of (some xot_gateway) = (add library (codes ".*") xot_gateway new).0
  resolver_of none =
      if x25_org then (add library (codes "^(...)(...)") (codes "\\2.\\1.x25.org") new).0 else new

  -- The only profile is the default one.
  unfoldable pub load_config : Args → Result (Config Regex)
  unfolding default_profile default_x25_params resolver_of buf_eq
  load_config args = do
    profile ← default_profile
    assert (buf_eq args.x3_profile (codes "default"))
    ok (record {
      x25_params = default_x25_params args.local_addr;
      x3_profiles = (codes "default", profile) ∷ [];
      resolver = resolver_of args.xot_gateway;
      x3_profile = args.x3_profile;
    })
