-- ===== src/Xot/Resolver/Lookup.antt =====
-- Which gateway is found for an address.
use xotpad.Base.{
  ℕ, suc, ◌≡◌, arith, refl, ap, sym, subst, ◌∙◌, false, List, [], ◌∷◌, ◌++◌, map, contains, Buf,
  Option, none, some, Result, ok, err, panic, stuck, ◌>>=◌,
}
use xotpad.X121.{X121Addr}
use xotpad.Xot.Resolver.{
  RegexLibrary, XotResolver, begins, replace_from, replace, group_pattern, digits_loop,
  replace_groups, template_replace, add_rule, add, apply_rule, found_or, lookup_loop, lookup,
}

-- A text without the backslash is left alone.
replace_from-plain :
    (digits replacement s : Buf)
    → contains s b'\\' ≡ false
    → replace_from 0 (b'\\' ∷ digits) replacement s ≡ s
unfolding replace_from begins
replace_from-plain digits replacement [] h = refl
replace_from-plain digits replacement (c ∷ s) h =
    ground (arith, replace_from-plain digits replacement s)

replace_groups-plain :
    (index : ℕ) (groups : List Buf) (s : Buf)
    → contains s b'\\' ≡ false
    → replace_groups index (map some groups) s ≡ ok s
unfolding replace_groups replace group_pattern
replace_groups-plain index [] s h = refl
replace_groups-plain index (g ∷ groups) s h =
    ap (replace_groups (suc index) (map some groups))
      (replace_from-plain (digits_loop (suc index) index) g s h)
    ∙ replace_groups-plain (suc index) groups s h

module _ {Regex : Type 0} (library : RegexLibrary Regex) where
  -- What is found, or else what the further rules give.
  abbrev pub or_else : Result (Option Buf) → Option Buf → Result (Option Buf)
  or_else rest none = rest
  or_else rest (some value) = ok (some value)

  found_or-bind :
      (rest more : Result (Option Buf)) (found : Option (Result Buf))
      → found_or library (rest >>= or_else more) found
        ≡ (found_or library rest found >>= or_else more)
  unfolding found_or
  found_or-bind rest more none = refl
  found_or-bind rest more (some (ok value)) = refl
  found_or-bind rest more (some (err e)) = refl
  found_or-bind rest more (some panic) = refl
  found_or-bind rest more (some stuck) = refl

  lookup_loop-append :
      (text : Buf) (rules more : List (Regex × Buf))
      → lookup_loop library text (rules ++ more)
        ≡ (lookup_loop library text rules >>= or_else (lookup_loop library text more))
  unfolding lookup_loop
  lookup_loop-append text [] more = refl
  lookup_loop-append text ((regex, gateway) ∷ rules) more =
      ap (λ rest. found_or library rest (apply_rule library gateway (library.captures regex text)))
        (lookup_loop-append text rules more)
      ∙ found_or-bind (lookup_loop library text rules) (lookup_loop library text more)
          (apply_rule library gateway (library.captures regex text))

  -- A rule that is added decides only for the addresses on which no earlier rule does: there it gives its
  -- gateway, when the gateway has no backslash and every group of the expression took part in the match.
  pub lookup-add :
      (pattern gateway : Buf) (regex : Regex) (groups : List Buf) (resolver : XotResolver Regex)
      (addr : X121Addr)
      → library.new pattern ≡ some regex
      → library.captures regex addr.addr ≡ some (map some groups)
      → contains gateway b'\\' ≡ false
      → let (resolver1, added) = add library pattern gateway resolver in
        (added ≡ ok tt)
        × (lookup library addr resolver1
            ≡ (lookup library addr resolver >>= or_else (ok (some gateway))))
  unfolding add lookup lookup_loop apply_rule template_replace found_or
  lookup-add pattern gateway regex groups resolver addr is matches plain =
      let single : lookup_loop library addr.addr ((regex, gateway) ∷ []) ≡ ok (some gateway) =
        rw matches (rw (replace_groups-plain 1 groups gateway plain) refl) in
      subst
        (λ compiled.
          let (resolver1, added) = add_rule library compiled gateway resolver in
          (added ≡ ok tt)
          × (lookup library addr resolver1
              ≡ (lookup library addr resolver >>= or_else (ok (some gateway)))))
        (sym is)
        (
          refl,
          lookup_loop-append addr.addr resolver.rules ((regex, gateway) ∷ [])
              ∙ ap (λ rest. lookup_loop library addr.addr resolver.rules >>= or_else rest) single,
        )
