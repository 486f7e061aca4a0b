-- ===== src/Xot/Resolver.antt =====
-- The gateway of an address: libxotpad/src/xot/resolver.rs, and `connect` of libxotpad/src/xot/mod.rs.
-- Regular expressions are not part of the program.
pub mod Lookup
use xotpad.Base.{
  ℕ, zero, suc, ◌+◌, ◌-◌, ◌/◌, ◌%◌, ltb, Bool, true, false, not, ◌&&◌, List, [], ◌∷◌, ◌++◌, length,
  ◌==◌, if◌then◌else◌, Buf, Option, none, some, Result, ok, err, panic, stuck, ◌>>=◌, invalid_regex,
  no_gateway,
}
use xotpad.X121.{X121Addr}

-- What is used of the library: `Regex::new`, and `captures` on a text, which gives the groups after the
-- first.
pub record RegexLibrary (Regex : Type 0) : Type 0 where
  pub new : Buf → Option Regex
  pub captures : Regex → Buf → Option (List (Option Buf))

pub record XotResolver (Regex : Type 0) : Type 0 where
  pub rules : List (Regex × Buf)

-- Whether a text begins with a pattern.
unfoldable pub begins : Buf → Buf → Bool
begins [] s = true
begins (c ∷ pattern) [] = false
begins (c ∷ pattern) (d ∷ s) = c == d && begins pattern s

-- `str::replace`, of a pattern that is not empty; so many bytes belong to the last match.
unfoldable pub replace_from : ℕ → Buf → Buf → Buf → Buf
unfolding begins
replace_from skip pattern replacement [] = []
replace_from (suc skip) pattern replacement (c ∷ s) = replace_from skip pattern replacement s
replace_from zero pattern replacement (c ∷ s) =
    let matched = replace_from (length pattern - 1) pattern replacement s in
    let rest = replace_from 0 pattern replacement s in
    if begins pattern (c ∷ s) then replacement ++ matched else c ∷ rest

unfoldable pub replace : Buf → Buf → Buf → Buf
unfolding replace_from
replace pattern replacement s = replace_from 0 pattern replacement s

-- `usize::to_string`: the digits, on fuel, of which the number itself is enough.
unfoldable pub digits_loop : ℕ → ℕ → Buf
digits_loop zero n = []
digits_loop (suc fuel) n =
    let front = digits_loop fuel (n / 10) in
    if ltb n 10 then (b'0' + n) ∷ [] else front ++ ((b'0' + n % 10) ∷ [])

-- `format!("\\{index}")`
unfoldable pub group_pattern : ℕ → Buf
unfolding digits_loop
group_pattern index = b'\\' ∷ digits_loop (suc index) index

-- The loop of `template_replace`; the `unwrap` of a group that did not take part is a panic.
unfoldable pub replace_groups : ℕ → List (Option Buf) → Buf → Result Buf
unfolding replace group_pattern
replace_groups index [] s = ok s
replace_groups index (none ∷ groups) s = panic
replace_groups index (some replacement ∷ groups) s =
    replace_groups (suc index) groups (replace (group_pattern index) replacement s)

unfoldable pub template_replace : Buf → List (Option Buf) → Result Buf
unfolding replace_groups
template_replace template captures = replace_groups 1 captures template

module _ {Regex : Type 0} where
  unfoldable pub new : XotResolver Regex
  new = record { rules = [] }

  module _ (library : RegexLibrary Regex) where
    unfoldable pub add_rule :
        Option Regex → Buf → XotResolver Regex → XotResolver Regex × Result (Unit {0})
    add_rule none gateway resolver = (resolver, err invalid_regex)
    add_rule (some regex) gateway resolver =
        (record resolver { rules = resolver.rules ++ ((regex, gateway) ∷ []) }, ok tt)

    unfoldable pub add : Buf → Buf → XotResolver Regex → XotResolver Regex × Result (Unit {0})
    unfolding add_rule
    add x25_addr gateway resolver = add_rule (library.new x25_addr) gateway resolver

    -- What a rule gives, if it matches.
    unfoldable pub apply_rule : Buf → Option (List (Option Buf)) → Option (Result Buf)
    unfolding template_replace
    apply_rule gateway none = none
    apply_rule gateway (some captures) = some (template_replace gateway captures)

    unfoldable pub found_or : Result (Option Buf) → Option (Result Buf) → Result (Option Buf)
    found_or rest none = rest
    found_or rest (some found) = found >>= λ value. ok (some value)

    -- The loop of `lookup`.
    unfoldable pub lookup_loop : Buf → List (Regex × Buf) → Result (Option Buf)
    unfolding apply_rule found_or
    lookup_loop text [] = ok none
    lookup_loop text ((regex, gateway) ∷ rules) =
        let rest = lookup_loop text rules in
        found_or rest (apply_rule gateway (library.captures regex text))

    unfoldable pub lookup : X121Addr → XotResolver Regex → Result (Option Buf)
    unfolding lookup_loop
    lookup x25_addr resolver = lookup_loop x25_addr.addr resolver.rules

    -- `connect`, where `tcp_connect` is `TcpStream::connect`.
    unfoldable pub connect_to : {Link : Type 0} → (Buf → ℕ → Result Link) → Option Buf → Result Link
    connect_to tcp_connect none = err no_gateway
    connect_to tcp_connect (some xot_gateway) = tcp_connect xot_gateway 1998

    unfoldable pub connect :
        {Link : Type 0} → (Buf → ℕ → Result Link) → X121Addr → XotResolver Regex → Result Link
    unfolding lookup connect_to
    connect tcp_connect addr resolver =
        lookup addr resolver >>= λ found. connect_to tcp_connect found
