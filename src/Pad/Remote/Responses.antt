-- ===== src/Pad/Remote/Responses.antt =====
-- What a PAD answers to the requests of the other one, and what its parameters are then.
use xotpad.Base.{
  ℕ, ◌≡◌, ◌≢◌, arith, refl, ap, sym, subst, ◌∙◌, false, not, ◌&&◌, ltb, List, [], ◌∷◌, map,
  contains, Option, none, some,
}
use xotpad.X3.{
  X3Params, X3Laws, X3ParamError, unsupported, invalid_value, other, Checked, valid, invalid,
}
use xotpad.X29.{param_of}
use xotpad.X29.Bytes.{fit}
use xotpad.Pad.Remote.{ok_or, set_result, set_read_loop}

-- No parameter is set twice.
abbrev pub IsDistinct : List (ℕ × ℕ) → Type 0
IsDistinct [] = Unit {0}
IsDistinct ((p, v) ∷ request) = (contains (map param_of request) p ≡ false) × IsDistinct request

-- The answer has the request's parameters.
pub fit-set_read_loop :
    {Q : Type 0} (params : X3Params Q) (request : List (ℕ × ℕ)) (q : Q)
    → fit (set_read_loop params request q).1 ≡ fit request
unfolding set_read_loop
fit-set_read_loop params [] q = refl
fit-set_read_loop params ((p, v) ∷ request) q =
    ap (λ b. not (ltb 0x7f p) && b) (fit-set_read_loop params request (params.set q p v).0)

module _ {Q : Type 0} (params : X3Params Q) where
  -- One entry of an answer: a value is the one asked for, and the parameter has it; a parameter that
  -- is unsupported cannot be read; one whose value was refused can.
  abbrev pub Entry : Q → ℕ → ℕ → Checked ℕ → Type 0
  Entry q p v (valid w) = (w ≡ v) × (params.get q p ≡ some v)
  Entry q p v (invalid unsupported) = params.get q p ≡ none
  Entry q p v (invalid e) = params.get q p ≢ none

  -- An entry for each of the request, in order, about the parameters as they are now.
  abbrev pub Answers : Q → List (ℕ × ℕ) → List (ℕ × Checked ℕ) → Type 0
  Answers q [] [] = Unit {0}
  Answers q ((p, v) ∷ request) ((p', c) ∷ response) =
      (p' ≡ p) × Entry q p v c × Answers q request response
  Answers q request response = ⊥

  module _ (laws : X3Laws params) where
    untouched :
        (request : List (ℕ × ℕ)) (q : Q) (p : ℕ)
        → contains (map param_of request) p ≡ false
        → params.get (set_read_loop params request q).0 p ≡ params.get q p
    unfolding set_read_loop
    untouched [] q p h = refl
    untouched ((p', v) ∷ request) q p h =
        untouched request (params.set q p' v).0 p (ground arith)
        ∙ laws.get_other q p' p v (λ e. ground arith)

    -- After a refusal the parameter is what it was.
    as_before :
        (q q' : Q) (p v : ℕ) (e : X3ParamError)
        → (params.set q p v).1 ≡ invalid e
        → params.get q' p ≡ params.get (params.set q p v).0 p
        → params.get q' p ≡ params.get q p
    as_before q q' p v e h same = same ∙ ap (λ s. params.get s p) (laws.refused q p v e h)

    readable :
        (q q' : Q) (p v : ℕ) (e : X3ParamError)
        → (params.set q p v).1 ≡ invalid e
        → e ≢ unsupported
        → params.get q' p ≡ params.get (params.set q p v).0 p
        → params.get q' p ≢ none
    readable q q' p v e h ne same gone =
        let missing = laws.missing q p v (sym (as_before q q' p v e h same) ∙ gone) in ne (cc)

    -- An entry is about the parameters right after it was set, and no later one changes that.
    entry :
        (q q' : Q) (p v : ℕ) (result : Checked (Unit {0}))
        → (params.set q p v).1 ≡ result
        → params.get q' p ≡ params.get (params.set q p v).0 p
        → Entry q' p v (set_result params (params.set q p v).0 p result)
    unfolding set_result ok_or
    entry q q' p v (valid tt) e same =
        let now = laws.get_set q p v e in
        subst (λ (g : Option ℕ). Entry q' p v (ok_or g)) (sym now) (refl, same ∙ now)
    entry q q' p v (invalid unsupported) e same =
        as_before q q' p v unsupported e same ∙ laws.supported q p v e
    entry q q' p v (invalid invalid_value) e same = readable q q' p v invalid_value e (λ h. cc) same
    entry q q' p v (invalid other) e same = readable q q' p v other e (λ h. cc) same

    -- For parameters that keep the laws of the trait, and a request that sets none of them twice: the
    -- answer has an entry for each one in order. An entry with a value has the one asked for, and the
    -- parameter holds it when the request is done; an entry that says unsupported is about a
    -- parameter that cannot be read, and any other refusal about one that can.
    pub set_read_loop-Answers :
        (request : List (ℕ × ℕ)) (q : Q)
        → IsDistinct request
        → Answers (set_read_loop params request q).0 request (set_read_loop params request q).1
    unfolding set_read_loop
    set_read_loop-Answers [] q d = tt
    set_read_loop-Answers ((p, v) ∷ request) q (fresh, d) = (
      refl,
      entry q (set_read_loop params request (params.set q p v).0).0 p v (params.set q p v).1 refl
          (untouched request (params.set q p v).0 p fresh),
      set_read_loop-Answers request (params.set q p v).0 d,
    )
