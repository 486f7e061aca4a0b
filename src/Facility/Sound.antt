-- ===== src/Facility/Sound.antt =====
-- `decode_facilities` on any bytes: it returns, and what it accepts encodes to the same bytes.
use xotpad.Base.{
  ℕ, zero, suc, ◌+◌, ◌≤◌, ◌<◌, ◌≡◌, arith, refl, sym, ap, ap₂, ◌∙◌, List, [], ◌∷◌, ◌++◌, length,
  All, Buf, IsByte, ok, length-append, append_assoc, append-nil, true, false, not, ◌&&◌, contains,
  ltb, leb, facilities_not_unique, ◌==◌, Returns, value, error, Returns-bind, Returns-if,
  Returns-ok, Returns-guard, Returns-weaken, length-take, take-append-drop, All-append_right,
}
use xotpad.Base.Bits.{and_c0}
use xotpad.Facility.{
  X25Facility, packet_size, window_size, class_a, class_b, class_c, class_d, get_code,
  encode_params, encode_loop, encode_facilities, decode_facility, decode_loop, decode_facilities,
  encode_packet_size, decode_packet_size, decode_class_a_params, decode_class_b_params,
  decode_class_c_params, decode_class_d_params, check_window_size, is_class_a_code, is_class_b_code,
  is_class_c_code, is_class_d_code,
}
use xotpad.Facility.RoundTrip.{wire_all}
use xotpad.Facility.Params.{wire, IsWellFormed, decode_packet_size_lem, exponent_lem}

-- The encoder writes `wire f` for it.
abbrev Encodes : X25Facility → Type 0
Encodes f = (b : Buf) → encode_params f b ≡ ok (length (wire f), b ++ wire f)

-- What is known of a facility read from `buf` behind `code`.
record Read (code : ℕ) (buf : Buf) (f : X25Facility) (rest : Buf) : Type 0 where
  same_code : get_code f ≡ code
  text : buf ≡ wire f ++ rest
  encodes : Encodes f
  formed : IsWellFormed f

decode_packet_size-Returns :
    (e : ℕ) → Returns (λ size. encode_packet_size size ≡ ok e) (decode_packet_size e)
unfolding decode_packet_size
decode_packet_size-Returns e =
    Returns-if (not (leb 4 e && leb e 12)) (λ _. error)
      (λ h. value (decode_packet_size_lem e (unfold decode_packet_size in rw h)))

class_a-Returns : (buf : Buf) → Returns (λ (a, rest). buf ≡ a ∷ rest) (decode_class_a_params buf)
unfolding decode_class_a_params
class_a-Returns [] = error
class_a-Returns (a ∷ buf) = value refl

class_b-Returns :
    (buf : Buf) → Returns (λ (a, b, rest). buf ≡ a ∷ b ∷ rest) (decode_class_b_params buf)
unfolding decode_class_b_params
class_b-Returns [] = error
class_b-Returns (a ∷ []) = error
class_b-Returns (a ∷ b ∷ buf) = value refl

class_c-Returns :
    (buf : Buf) → Returns (λ (a, b, c, rest). buf ≡ a ∷ b ∷ c ∷ rest) (decode_class_c_params buf)
unfolding decode_class_c_params
class_c-Returns [] = error
class_c-Returns (a ∷ []) = error
class_c-Returns (a ∷ b ∷ []) = error
class_c-Returns (a ∷ b ∷ c ∷ buf) = value refl

class_d-Returns :
    (buf : Buf)
    → All IsByte buf
    → Returns
        (λ (ps, rest). (buf ≡ length ps ∷ (ps ++ rest)) × (length ps ≤ 255))
        (decode_class_d_params buf)
unfolding decode_class_d_params
class_d-Returns [] h = error
class_d-Returns (n ∷ buf) h =
    Returns-if (ltb (length buf) n) (λ _. error)
      (λ e. value (ground (arith, length-take n buf, take-append-drop n buf)))

window-Returns :
    (size : ℕ) → Returns (λ _. (leb 1 size && leb size 127) ≡ true) (check_window_size size)
unfolding check_window_size
window-Returns size = Returns-guard _ _

-- The six shapes.
module _ (code : ℕ) (buf rest : Buf) where
  read_packet_size :
      (a b p q : ℕ)
      → (code == 0x42) ≡ true
      → buf ≡ a ∷ b ∷ rest
      → encode_packet_size p ≡ ok a
      → encode_packet_size q ≡ ok b
      → Read code buf (packet_size p q) rest
  unfolding wire encode_params get_code
  read_packet_size a b p q is text ep eq = record {
    same_code = ground arith;
    text = cc (exponent_lem p ep, exponent_lem q eq);
    encodes = λ out.
        ground (arith, exponent_lem p ep, exponent_lem q eq, append_assoc out (a ∷ []) (b ∷ []));
    formed = tt;
  }

  read_window_size :
      (a b : ℕ)
      → (code == 0x43) ≡ true
      → buf ≡ a ∷ b ∷ rest
      → (leb 1 a && leb a 127) ≡ true
      → (leb 1 b && leb b 127) ≡ true
      → Read code buf (window_size a b) rest
  unfolding wire encode_params get_code
  read_window_size a b is text wa wb = record {
    same_code = ground arith;
    text = text;
    encodes = λ out. ground (arith, append_assoc out (a ∷ []) (b ∷ []));
    formed = tt;
  }

  read_class_a :
      (a : ℕ)
      → code < 256
      → is_class_a_code code ≡ true
      → buf ≡ a ∷ rest
      → Read code buf (class_a code a) rest
  unfolding wire encode_params get_code
  read_class_a a small is text = record {
    same_code = refl;
    text = text;
    encodes = λ out. rw is;
    formed = small;
  }

  read_class_b :
      (a b : ℕ)
      → code < 256
      → (code == 0x42) ≡ false
      → (code == 0x43) ≡ false
      → is_class_b_code code ≡ true
      → buf ≡ a ∷ b ∷ rest
      → Read code buf (class_b code a b) rest
  unfolding wire encode_params get_code
  read_class_b a b small not42 not43 is text = record {
    same_code = refl;
    text = text;
    encodes = λ out. rw (is, append_assoc);
    formed = ground arith;
  }

  read_class_c :
      (a b c : ℕ)
      → code < 256
      → is_class_c_code code ≡ true
      → buf ≡ a ∷ b ∷ c ∷ rest
      → Read code buf (class_c code a b c) rest
  unfolding wire encode_params get_code
  read_class_c a b c small is text = record {
    same_code = refl;
    text = text;
    encodes = λ out. rw is (simp append_assoc);
    formed = small;
  }

  read_class_d :
      (ps : Buf)
      → code < 256
      → is_class_d_code code ≡ true
      → (buf ≡ length ps ∷ (ps ++ rest)) × (length ps ≤ 255)
      → Read code buf (class_d code ps) rest
  unfolding wire encode_params get_code
  read_class_d ps small is (text, short) = record {
    same_code = refl;
    text = text;
    encodes = λ out. ground (arith, append_assoc out (length ps ∷ []) ps);
    formed = small;
  }

decode_facility-Returns :
    (code : ℕ) (buf : Buf)
    → code < 256
    → All IsByte buf
    → Returns (λ (f, rest). Read code buf f rest) (decode_facility code buf)
unfolding decode_facility
decode_facility-Returns code buf small bytes =
    Returns-if (code == 0x42)
      (λ is42. Returns-bind (class_b-Returns buf) λ (a, b, rest) text.
        Returns-bind (decode_packet_size-Returns a) λ p ep.
          Returns-bind (decode_packet_size-Returns b) λ q eq.
            value {a = (packet_size p q, rest)}
              (read_packet_size code buf rest a b p q is42 text ep eq))
      (λ not42.
        Returns-if (code == 0x43)
          (λ is43. Returns-bind (class_b-Returns buf) λ (a, b, rest) text.
            Returns-bind (window-Returns a) λ _ wa. Returns-bind (window-Returns b) λ _ wb.
              value {a = (window_size a b, rest)}
                (read_window_size code buf rest a b is43 text wa wb))
          (λ not43.
            Returns-if (is_class_a_code code)
              (λ is. Returns-bind (class_a-Returns buf) λ (a, rest) text.
                value {a = (class_a code a, rest)} (read_class_a code buf rest a small is text))
              (λ not_a.
                Returns-if (is_class_b_code code)
                  (λ is. Returns-bind (class_b-Returns buf) λ (a, b, rest) text.
                    value {a = (class_b code a b, rest)}
                      (read_class_b code buf rest a b small not42 not43 is text))
                  (λ not_b.
                    Returns-if (is_class_c_code code)
                      (λ is. Returns-bind (class_c-Returns buf) λ (a, b, c, rest) text.
                        value {a = (class_c code a b c, rest)}
                          (read_class_c code buf rest a b c small is text))
                      (λ not_c.
                        Returns-if (is_class_d_code code)
                          (λ is. Returns-bind (class_d-Returns buf bytes) λ (ps, rest) text.
                            value {a = (class_d code ps, rest)}
                              (read_class_d code buf rest ps small is text))
                          (λ not_d. absurd (ground (arith, and_c0 code))))))))

-- What is known of the facilities that are read from `buf` after those with `codes`.
record ReadAll (codes : List ℕ) (buf : Buf) (out fs : List X25Facility) : Type 0 where
  new : List X25Facility
  appended : fs ≡ out ++ new
  text : buf ≡ wire_all new
  formed : All IsWellFormed new
  encodes :
      (len : ℕ) (b : Buf)
      → encode_loop new codes len b ≡ ok (len + length (wire_all new), b ++ wire_all new)

add_round :
    (codes : List ℕ) (code : ℕ) (buf rest : Buf) (f : X25Facility) (out fs : List X25Facility)
    → not (contains codes code) ≡ true
    → Read code buf f rest
    → ReadAll (code ∷ codes) rest (out ++ (f ∷ [])) fs
    → ReadAll codes (code ∷ buf) out fs
unfolding wire_all encode_loop
add_round codes code buf rest f out fs fresh one more = record {
  new = f ∷ more.new;
  appended = more.appended ∙ append_assoc out (f ∷ []) more.new;
  text = cc (one.same_code, one.text, more.text);
  formed = (one.formed, more.formed);
  encodes = λ len b.
      rw (one.same_code, fresh, one.encodes (b ++ (code ∷ [])), more.encodes)
        (ap₂ (λ n t. ok (n, t)) (omega (arith, length-append (wire f) (wire_all more.new)))
          (simp append_assoc));
}

decode_loop-Returns :
    (fuel : ℕ) (codes : List ℕ) (out : List X25Facility) (buf : Buf)
    → length buf ≤ fuel
    → All IsByte buf
    → Returns (λ fs. ReadAll codes buf out fs) (decode_loop fuel codes out buf)
unfolding decode_loop wire_all encode_loop
decode_loop-Returns fuel codes out [] enough bytes = value (record {
  new = [];
  appended = sym (append-nil out);
  text = refl;
  formed = tt;
  encodes = λ len b. ground (arith, append-nil b);
})
decode_loop-Returns zero codes out (code ∷ buf) enough bytes = absurd (omega arith)
decode_loop-Returns (suc fuel) codes out (code ∷ buf) enough (byte, bytes) =
    Returns-bind (Returns-guard (not (contains codes code)) facilities_not_unique) λ _ fresh.
      Returns-bind (decode_facility-Returns code buf byte bytes) λ (f, rest) one.
        Returns-weaken
          (decode_loop-Returns fuel (code ∷ codes) (out ++ (f ∷ [])) rest
            (omega (arith, ap length one.text, length-append (wire f) rest))
            (All-append_right IsByte (wire f) rest (rw one.text at bytes)))
          λ fs more. add_round codes code buf rest f out fs fresh one more

-- On any bytes the decoder returns facilities or an error: the `unreachable!()` is, and the fuel is
-- enough.
pub decode_facilities-Returns :
    (buf : Buf) → All IsByte buf → Returns (λ fs. All IsWellFormed fs) (decode_facilities buf)
unfolding decode_facilities
decode_facilities-Returns buf bytes =
    Returns-weaken (decode_loop-Returns (length buf) [] [] buf (omega arith) bytes)
      λ fs r. rw r.appended r.formed

encode_all :
    (buf : Buf) {fs : List X25Facility}
    → ReadAll [] buf [] fs
    → encode_loop fs [] 0 [] ≡ ok (length buf, buf)
encode_all buf r = ground (arith, r.encodes 0 [])

-- Bytes that the decoder accepts are those that the encoder writes for its result.
pub encode_facilities-decode :
    (buf : Buf) {fs : List X25Facility}
    → All IsByte buf
    → decode_facilities buf ≡ ok fs
    → encode_facilities fs [] ≡ ok (length buf, buf)
unfolding decode_facilities encode_facilities
encode_facilities-decode buf bytes h =
    let r = Returns-ok (decode_loop-Returns (length buf) [] [] buf (omega arith) bytes) h in
    encode_all buf r
