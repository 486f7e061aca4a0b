-- ===== src/X3/PadParams/Laws.antt =====
-- `PadParams` keeps what the trait `X3Params` promises, if its delegate does.
use xotpad.Base.{ℕ, ◌≡◌, ◌≢◌, arith, refl, ap, List, [], ◌∷◌, Option, none, some, ok, All, ◌∙◌}
use xotpad.X3.{X3Params, X3Laws, X3ParamError, unsupported, valid, invalid}
use xotpad.X3.PadParams.{
  PadParams, get, get_delegate, set, set_delegate, all, all_delegate, pad_params,
}

module _ {Q : Type 0} (params : X3Params Q) (laws : X3Laws params) where
  -- The delegate has none of the parameters of its own that a `PadParams` has.
  abbrev pub IsApart : Type 0
  IsApart =
      (q : Q)
      → (params.get q 2 ≡ none)
        × (params.get q 3 ≡ none)
        × (params.get q 4 ≡ none)
        × (params.get q 13 ≡ none)
        × (params.get q 15 ≡ none)

  get_set-delegate :
      (s : PadParams Q) (d : Option Q) (p v : ℕ)
      → (set_delegate params s d p v).1 ≡ valid tt
      → get_delegate params (set_delegate params s d p v).0.delegate p ≡ some v
  unfolding set_delegate get_delegate
  get_set-delegate s (some q) p v h = laws.get_set q p v h
  get_set-delegate s none p v h = cc

  get_set :
      (s : PadParams Q) (p v : ℕ)
      → (set params s p v).1 ≡ valid tt
      → get params (set params s p v).0 p ≡ some v
  unfolding set get
  get_set s p v h = ground (arith, get_set-delegate s s.delegate p v)

  -- The delegate's turn leaves the parameters of the `PadParams` itself.
  kept :
      (s : PadParams Q) (d : Option Q) (p v : ℕ)
      → let s' : PadParams Q = (set_delegate params s d p v).0 in
        (s'.echo ≡ s.echo)
        × (s'.forward ≡ s.forward)
        × (s'.idle ≡ s.idle)
        × (s'.lf_insert ≡ s.lf_insert)
        × (s'.editing ≡ s.editing)
  unfolding set_delegate
  kept s (some q) p v = (refl, refl, refl, refl, refl)
  kept s none p v = (refl, refl, refl, refl, refl)

  get_other-delegate :
      (s : PadParams Q) (d : Option Q) (p p' v : ℕ)
      → d ≡ s.delegate
      → p ≢ p'
      → get_delegate params (set_delegate params s d p v).0.delegate p'
        ≡ get_delegate params s.delegate p'
  unfolding set_delegate get_delegate
  get_other-delegate s (some q) p p' v e h =
      laws.get_other q p p' v h ∙ ap (λ d. get_delegate params d p') e
  get_other-delegate s none p p' v e h = refl

  get_other :
      (s : PadParams Q) (p p' v : ℕ) → p ≢ p' → get params (set params s p v).0 p' ≡ get params s p'
  unfolding set get
  get_other s p p' v h =
      ground (arith, kept s s.delegate p v, get_other-delegate s s.delegate p p' v)

  refused-delegate :
      (s : PadParams Q) (d : Option Q) (p v : ℕ) (e : X3ParamError)
      → d ≡ s.delegate
      → (set_delegate params s d p v).1 ≡ invalid e
      → (set_delegate params s d p v).0 ≡ s
  unfolding set_delegate
  refused-delegate s (some q) p v e same h =
      ap (λ d. record s { delegate = d }) (ap some (laws.refused q p v e h) ∙ same)
  refused-delegate s none p v e same h = refl

  refused :
      (s : PadParams Q) (p v : ℕ) (e : X3ParamError)
      → (set params s p v).1 ≡ invalid e
      → (set params s p v).0 ≡ s
  unfolding set
  refused s p v e h = ground (arith, refused-delegate s s.delegate p v e)

  missing-delegate :
      (s : PadParams Q) (d : Option Q) (p v : ℕ)
      → get_delegate params d p ≡ none
      → (set_delegate params s d p v).1 ≡ invalid unsupported
  unfolding set_delegate get_delegate
  missing-delegate s (some q) p v h = laws.missing q p v h
  missing-delegate s none p v h = refl

  missing :
      (s : PadParams Q) (p v : ℕ)
      → get params s p ≡ none
      → (set params s p v).1 ≡ invalid unsupported
  unfolding set get
  missing s p v h = ground (arith, missing-delegate s s.delegate p v)

  supported-delegate :
      (s : PadParams Q) (d : Option Q) (p v : ℕ)
      → (set_delegate params s d p v).1 ≡ invalid unsupported
      → get_delegate params d p ≡ none
  unfolding set_delegate get_delegate
  supported-delegate s (some q) p v h = laws.supported q p v h
  supported-delegate s none p v h = refl

  supported :
      (s : PadParams Q) (p v : ℕ)
      → (set params s p v).1 ≡ invalid unsupported
      → get params s p ≡ none
  unfolding set get
  supported s p v h = ground (arith, supported-delegate s s.delegate p v)

  -- What the delegate has is none of the five, so it is read through.
  through :
      (s : PadParams Q) (q : Q) (p v : ℕ)
      → IsApart
      → s.delegate ≡ some q
      → params.get q p ≡ some v
      → get params s p ≡ some v
  unfolding get get_delegate
  through s q p v apart e h = ground (arith, apart q, ap (λ d. get_delegate params d p) e)

  read_through :
      (s : PadParams Q) (q : Q) (entries : List (ℕ × ℕ))
      → IsApart
      → s.delegate ≡ some q
      → All (λ (p, v). params.get q p ≡ some v) entries
      → All (λ (p, v). get params s p ≡ some v) entries
  read_through s q [] apart e h = tt
  read_through s q ((p, v) ∷ entries) apart e (here, rest) =
      (through s q p v apart e here, read_through s q entries apart e rest)

  delegate_entries :
      (s : PadParams Q) (d : Option Q)
      → IsApart
      → s.delegate ≡ d
      → (entries : List (ℕ × ℕ)) × (all_delegate params d ≡ ok entries)
        × All (λ (p, v). get params s p ≡ some v) entries
  unfolding all_delegate
  delegate_entries s (some q) apart e =
      let (entries, run, h) = laws.all_get q in (entries, run, read_through s q entries apart e h)
  delegate_entries s none apart e = ([], refl, tt)

  -- When the delegate keeps the laws of the trait `X3Params`, and has none of the parameters 2, 3, 4,
  -- 13 and 15, `PadParams` keeps the laws: a value that was set is read back and nothing else
  -- changes, a refused value changes nothing, exactly the parameters that cannot be read are
  -- unsupported, and `all` returns and lists what is read.
  pub pad_params-Laws : IsApart → X3Laws (pad_params params)
  unfolding all
  pad_params-Laws apart = record {
    get_set = get_set;
    get_other = get_other;
    refused = refused;
    missing = missing;
    supported = supported;
    all_get = λ s.
        let (entries, run, h) = delegate_entries s s.delegate apart refl in
        (
          (2, s.echo.raw)
              ∷ (3, s.forward.raw)
              ∷ (4, s.idle.raw)
              ∷ (13, s.lf_insert.raw)
              ∷ (15, s.editing.raw)
              ∷ entries,
          rw run refl,
          (refl, (refl, (refl, (refl, (refl, h))))),
        );
  }
