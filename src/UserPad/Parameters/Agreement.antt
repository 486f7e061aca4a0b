-- ===== src/UserPad/Parameters/Agreement.antt =====
-- The user's commands on the PAD's own parameters, beside the X.29 messages of another PAD.
use xotpad.Base.{ℕ, ◌≡◌, refl, ap, List, [], ◌∷◌, map, some, Result, ok, err, panic, stuck, ◌>>=◌}
use xotpad.X3.{X3Params, Checked, valid, invalid}
use xotpad.X29.{X29PadMessage, indicate}
use xotpad.Pad.Remote as Remote
use xotpad.Pad.Remote.{ok_or, set_result, set_read_loop, set_read_params}
use xotpad.UserPad.Parameters.{read_params, set_param, set_params, normalize_read_params_response}

module _ {Q : Type 0} (params : X3Params Q) where
  abbrev after_set : ℕ → List (ℕ × ℕ) → Q × Checked (Unit {0}) → Q × List (ℕ × Checked ℕ)
  after_set p request x =
      let (q1, answer) = set_param params p x in
      let (q2, response) = set_params params q1 request in (q2, answer ∷ response)

  abbrev after_set_read : ℕ → List (ℕ × ℕ) → Q × Checked (Unit {0}) → Q × List (ℕ × Checked ℕ)
  after_set_read p request (q1, result) =
      let (q2, response) = set_read_loop params request q1 in
      (q2, (p, set_result params q1 p result) ∷ response)

  -- One parameter, before the same answers to the rest.
  set_one :
      (p : ℕ) (request : List (ℕ × ℕ))
      → ((q : Q) → set_params params q request ≡ set_read_loop params request q)
      → (x : Q × Checked (Unit {0})) → after_set p request x ≡ after_set_read p request x
  unfolding set_param set_result
  set_one p request same (q, valid _) = ap (λ r. (r.0, (p, ok_or (params.get q p)) ∷ r.1)) (same q)
  set_one p request same (q, invalid e) = ap (λ r. (r.0, (p, invalid e) ∷ r.1)) (same q)

  set_loop :
      (request : List (ℕ × ℕ)) (q : Q)
      → set_params params q request ≡ set_read_loop params request q
  unfolding set_params set_read_loop
  set_loop [] q = refl
  set_loop ((p, v) ∷ request) q = set_one p request (set_loop request) (params.set q p v)

  map-map {ℓ κ ν} :
      {A : Type ℓ} {B : Type κ} {C : Type ν} (f : A → B) (g : B → C) (xs : List A)
      → map g (map f xs) ≡ map (λ x. g (f x)) xs
  map-map f g [] = refl
  map-map f g (x ∷ xs) = ap (λ ys. g (f x) ∷ ys) (map-map f g xs)

  read_all :
      (r : Result (List (ℕ × ℕ)))
      → ((r >>= λ entries. ok (map (λ (p, v). (p, some v)) entries)) >>= λ response.
          ok (indicate (normalize_read_params_response response)))
        ≡ (r >>= λ entries. ok (indicate (map (λ (p, v). (p, valid v)) entries)))
  unfolding normalize_read_params_response ok_or
  read_all (ok entries) =
      ap (λ m. ok (indicate m)) (map-map (λ (p, v). (p, some v)) (λ (p, r). (p, ok_or r)) entries)
  read_all (err e) = refl
  read_all panic = refl
  read_all stuck = refl

  reading :
      (q : Q) (wanted : List ℕ)
      → (read_params params q wanted >>= λ response.
          ok (indicate (normalize_read_params_response response)))
        ≡ Remote.read_params params q wanted
  unfolding read_params Remote.read_params normalize_read_params_response
  reading q [] = read_all (params.all q)
  reading q (p ∷ wanted) =
      ap (λ m. ok (indicate m))
        (map-map (λ p. (p, params.get q p)) (λ (p, r). (p, ok_or r)) (p ∷ wanted))

  -- What SET? leaves and shows, as a message would show it.
  abbrev pub local_answer : Q → List (ℕ × ℕ) → Q × Result X29PadMessage
  local_answer q request =
      let (q1, response) = set_params params q request in (q1, ok (indicate response))

  -- The user's commands and the messages of another PAD have the same effect and the same answer: a SET?
  -- of at least one parameter leaves the parameters as a message to set and read, and its response is what
  -- that message is answered with; a PAR? shows what a message to read is answered with.
  pub commands-handle :
      (q : Q) (r : ℕ × ℕ) (request : List (ℕ × ℕ)) (wanted : List ℕ)
      → local_answer q (r ∷ request) ≡ set_read_params params q (r ∷ request)
        × ((read_params params q wanted >>= λ response.
              ok (indicate (normalize_read_params_response response)))
            ≡ Remote.read_params params q wanted)
  unfolding set_read_params
  commands-handle q r request wanted =
      (ap (λ x. (x.0, ok (indicate x.1))) (set_loop (r ∷ request) q), reading q wanted)
