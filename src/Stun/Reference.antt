-- ===== src/Stun/Reference.antt =====
-- stun.go: the attribute loop against a reading of the attributes as a list.
use nexus_stun.Common.{
  ℕ, zero, suc, ◌+◌, ◌≤◌, ◌<◌, ◌≡◌, refl, sym, ap, ◌∙◌, inl, inr, true, false, List, [], ◌∷◌, ◌++◌,
  ◌==◌, ==_iff, if◌then◌else◌, Bool-cases, le→not_ltb, lt→ltb, length, length-append, append_assoc,
  Bytes, slice, slice_within, All, Outcome, ok, err, panic, out_of_fuel, ◌>>=◌, arith, put_uint16,
  put_uint32,
}
use nexus_stun.Stun.{
  StunError, StunResult, no_mapped_address, attr_round, mapped, found_at, parse_xor_mapped_addr,
  parse_mapped_addr, dispatch_attr, attr_loop, after_round, parse_binding_response,
}
use nexus_stun.Stun.Message.{
  Attr, attr_onto, attrs_onto, message_onto, length-message_onto,
  parse_binding_response-message_onto,
}
use nexus_stun.Stun.Skipping.{
  IsSkipped, attr_round-attr_onto, value_at, skip_round, attr_bytes, attr_onto-append,
  length-attr_bytes,
}

-- An attribute that its header can describe.
pub record IsSized (a : Attr) : Type 0 where
  pub type_sized : a.attr_type < 65536
  pub value_sized : length a.value < 65536

-- The address of the first attribute that is one of the two address attributes.
pub first_address : List Attr → Outcome StunError StunResult
first_address [] = err no_mapped_address
first_address (a ∷ attrs) =
    if a.attr_type == 0x0020
    then (parse_xor_mapped_addr a.value [] >>= λ (ip, port). ok (mapped ip port))
    else if a.attr_type == 0x0001
    then (parse_mapped_addr a.value >>= λ (ip, port). ok (mapped ip port))
    else first_address attrs

-- The transaction id is not looked at.
parse_xor_mapped_addr_id : (v t : Bytes) → parse_xor_mapped_addr v t ≡ parse_xor_mapped_addr v []
unfolding parse_xor_mapped_addr
parse_xor_mapped_addr_id v t = refl

found_round :
    (m : Outcome StunError (Bytes × ℕ)) (rest : ℕ → Outcome StunError StunResult)
    → (m >>= found_at >>= after_round rest) ≡ (m >>= λ (ip, port). ok (mapped ip port))
found_round (ok (ip, port)) rest = refl
found_round (err e) rest = refl
found_round panic rest = refl
found_round out_of_fuel rest = refl

dispatch-xor :
    (d : Bytes) (offset attr_type : ℕ) (v : Bytes)
    → (attr_type == 0x0020) ≡ true
    → slice {E = StunError} d offset (offset + length v) ≡ ok v
    → 20 ≤ length d
    → dispatch_attr d offset attr_type (length v) ≡ (parse_xor_mapped_addr v [] >>= found_at)
unfolding dispatch_attr
dispatch-xor d offset attr_type v x e h =
    let (t, at_id, _) = slice_within {E = StunError} d 4 20 (omega arith) h in
    rw (x, e, at_id, parse_xor_mapped_addr_id v t) refl

dispatch-plain :
    (d : Bytes) (offset attr_type : ℕ) (v : Bytes)
    → (attr_type == 0x0020) ≡ false
    → (attr_type == 0x0001) ≡ true
    → slice {E = StunError} d offset (offset + length v) ≡ ok v
    → dispatch_attr d offset attr_type (length v) ≡ (parse_mapped_addr v >>= found_at)
unfolding dispatch_attr
dispatch-plain d offset attr_type v x y e = rw (x, y, e) refl

length-attrs_onto_cons :
    (a : Attr) (attrs : List Attr)
    → length (attrs_onto (a ∷ attrs) []) ≡ length (attr_bytes a) + length (attrs_onto attrs [])
length-attrs_onto_cons a attrs =
    ap length (attr_onto-append a (attrs_onto attrs []))
    ∙ length-append (attr_bytes a) (attrs_onto attrs [])

-- The loop, with fuel for each byte of the attributes, reads them as the list does.
attr_loop-first_address :
    (attrs : List Attr) (f : ℕ) (d pre rest : Bytes) (end offset : ℕ)
    → All IsSized attrs
    → 20 ≤ length pre
    → d ≡ pre ++ attrs_onto attrs rest
    → offset ≡ length pre
    → end ≡ offset + length (attrs_onto attrs [])
    → length (attrs_onto attrs []) < f
    → attr_loop f d end offset ≡ first_address attrs
unfolding attr_loop first_address
attr_loop-first_address attrs zero d pre rest end offset s h e p q l = absurd (omega (arith, l))
attr_loop-first_address [] (suc f) d pre rest end offset s h e p q l =
    rw (le→not_ltb offset end (omega (arith, q))) refl
attr_loop-first_address (a ∷ attrs) (suc f) d pre rest end offset (s, ss) h e p q l =
    rw (lt→ltb offset end inside) (elim (Bool-cases (a.attr_type == 0x0020)) [
      | inl xor ↦
          rw (xor, round, dispatch-xor d (offset + 4) a.attr_type a.value xor value long)
            (found_round (parse_xor_mapped_addr a.value []) (attr_loop f d end))
      | inr no_xor ↦ elim (Bool-cases (a.attr_type == 0x0001)) [
        | inl plain ↦
            rw
              (
                no_xor,
                plain,
                round,
                dispatch-plain d (offset + 4) a.attr_type a.value no_xor plain value,
              )
              (found_round (parse_mapped_addr a.value) (attr_loop f d end))
        | inr no_plain ↦
            rw
              (
                no_xor,
                no_plain,
                skip_round d pre (attrs_onto attrs rest) a offset (skipped no_xor no_plain) e p,
              )
              (attr_loop-first_address attrs f d (pre ++ attr_bytes a) rest end
                (length (pre ++ attr_bytes a)) ss (omega (arith, length-append pre (attr_bytes a)))
                moved refl (omega (arith, sum, length-append pre (attr_bytes a)))
                (omega (arith, sum, length-attr_bytes a)))
      ]
    ])
  where
    sum : length (attrs_onto (a ∷ attrs) []) ≡ length (attr_bytes a) + length (attrs_onto attrs [])
    sum = length-attrs_onto_cons a attrs

    inside : offset < end
    inside = omega (arith, q, sum, length-attr_bytes a)

    round : attr_round d offset ≡ dispatch_attr d (offset + 4) a.attr_type (length a.value)
    round =
        attr_round-attr_onto d pre (attrs_onto attrs rest) a offset e p s.type_sized s.value_sized

    value : slice {E = StunError} d (offset + 4) (offset + 4 + length a.value) ≡ ok a.value
    value = value_at d pre (attrs_onto attrs rest) a offset e p

    long : 20 ≤ length d
    long = omega (arith, ap length e, length-append pre (attr_onto a (attrs_onto attrs rest)))

    skipped : (a.attr_type == 0x0020) ≡ false → (a.attr_type == 0x0001) ≡ false → IsSkipped a
    skipped x y = record {
      typed = s.type_sized;
      sized = s.value_sized;
      not_xor = λ z. cc (x, (==_iff a.attr_type 0x0020).1 z);
      not_plain = λ z. cc (y, (==_iff a.attr_type 0x0001).1 z);
    }

    moved : d ≡ (pre ++ attr_bytes a) ++ attrs_onto attrs rest
    moved =
        e
        ∙ ap (◌++◌ pre) (attr_onto-append a (attrs_onto attrs rest))
        ∙ sym (append_assoc pre (attr_bytes a) (attrs_onto attrs rest))

attrs_onto-append :
    (attrs : List Attr) (rest : Bytes) → attrs_onto attrs rest ≡ attrs_onto attrs [] ++ rest
attrs_onto-append [] rest = refl
attrs_onto-append (a ∷ attrs) rest =
    attr_onto-append a (attrs_onto attrs rest)
    ∙ ap (◌++◌ (attr_bytes a)) (attrs_onto-append attrs rest)
    ∙ sym (append_assoc (attr_bytes a) (attrs_onto attrs []) rest)
    ∙ ap (λ (s : Bytes). s ++ rest) (sym (attr_onto-append a (attrs_onto attrs [])))

-- A Binding Success Response is read as the list of its attributes is: the address of the first that is
-- an address attribute, however short its value, and the error that there is none where all are of other
-- types; whatever follows the attributes. Types and lengths fit 16 bits.
pub parse_binding_response-first_address :
    (tid : Bytes) (attrs : List Attr) (after : Bytes)
    → length tid ≡ 12
    → All IsSized attrs
    → length (attrs_onto attrs []) < 65536
    → parse_binding_response
        (message_onto 0x0101 (length (attrs_onto attrs [])) 0x2112A442 tid (attrs_onto attrs after))
      ≡ first_address attrs
parse_binding_response-first_address tid attrs after id s sized =
    parse_binding_response-message_onto 0x0101 n 0x2112A442 tid area (omega arith) sized
      (omega arith) id
    ∙ rw (le→not_ltb (length area) n (omega (arith, split))) refl
    ∙ attr_loop-first_address attrs (suc (length d)) d header after (20 + n) 20 s
        (omega (arith, id)) refl (omega (arith, id)) refl
        (omega (arith, split, length-message_onto 0x0101 n 0x2112A442 tid area id))
  where
    n : ℕ
    n = length (attrs_onto attrs [])

    area : Bytes
    area = attrs_onto attrs after

    d : Bytes
    d = message_onto 0x0101 n 0x2112A442 tid area

    header : Bytes
    header = put_uint16 0x0101 ++ (put_uint16 n ++ (put_uint32 0x2112A442 ++ tid))

    split : length area ≡ n + length after
    split = ap length (attrs_onto-append attrs after) ∙ length-append (attrs_onto attrs []) after
