-- ===== src/Stun/Skipping.antt =====
-- stun.go: the attribute loop goes over the attributes that it does not know.
use nexus_stun.Common.{
  ℕ, zero, suc, ◌+◌, ◌-◌, ◌%◌, ◌≤◌, ◌<◌, ◌≡◌, ◌≢◌, refl, sym, ap, ◌∙◌, List, [], ◌∷◌, ◌++◌, arith,
  le→not_ltb, lt→ltb, length, length-append, append_assoc, Bytes, slice, put_uint16, slice_at,
  append-nil, All, Outcome, ok,
}
use nexus_stun.Stun.Message.{Attr, padding, length-zeros, attr_onto, attrs_onto, attr_header_lem}
use nexus_stun.Stun.{StunError, StunResult, next, dispatch_attr, attr_round, attr_loop, past_attr}

-- An attribute that the loop passes over.
pub record IsSkipped (a : Attr) : Type 0 where
  pub typed : a.attr_type < 65536
  pub sized : length a.value < 65536
  pub not_xor : a.attr_type ≢ 0x0020
  pub not_plain : a.attr_type ≢ 0x0001

past_attr-padding :
    (v : Bytes) (offset : ℕ) → past_attr offset (length v) ≡ offset + length v + length (padding v)
past_attr-padding v offset = ground (arith, length-zeros ((4 - length v % 4) % 4))

-- Where an attribute stands in the data, the round reaches the switch on its type.
pub attr_round-attr_onto :
    (d pre rest : Bytes) (a : Attr) (offset : ℕ)
    → d ≡ pre ++ attr_onto a rest
    → offset ≡ length pre
    → a.attr_type < 65536
    → length a.value < 65536
    → attr_round d offset ≡ dispatch_attr d (offset + 4) a.attr_type (length a.value)
unfolding attr_round
attr_round-attr_onto d pre rest a offset e p ht hl = rw (
  le→not_ltb (length d) (offset + 4) (omega (arith, length_d)),
  attr_header_lem d pre (a.value ++ (padding a.value ++ rest)) a.attr_type (length a.value) offset e
      p ht hl,
  le→not_ltb (length d) (offset + 4 + length a.value) (omega (arith, length_d)),
)
  where
    length_d : length d ≡ length pre + 4 + length a.value + length (padding a.value ++ rest)
    length_d = omega (
      arith,
      ap length e,
      length-append pre (attr_onto a rest),
      length-append a.value (padding a.value ++ rest),
    )

pub value_at :
    (d pre rest : Bytes) (a : Attr) (offset : ℕ)
    → d ≡ pre ++ attr_onto a rest
    → offset ≡ length pre
    → slice {E = StunError} d (offset + 4) (offset + 4 + length a.value) ≡ ok a.value
value_at d pre rest a offset e p =
    slice_at d (pre ++ (put_uint16 a.attr_type ++ put_uint16 (length a.value))) a.value
      (padding a.value ++ rest) (offset + 4) (offset + 4 + length a.value)
      (e ∙ sym (append_assoc pre _ _))
      (omega (arith, length-append pre (put_uint16 a.attr_type ++ put_uint16 (length a.value))))
      refl

-- One attribute with its padding.
abbrev pub attr_bytes : Attr → Bytes
attr_bytes a = attr_onto a []

pub attr_onto-append : (a : Attr) (rest : Bytes) → attr_onto a rest ≡ attr_bytes a ++ rest
attr_onto-append a rest = rw (append-nil, append_assoc a.value (padding a.value) rest)

pub length-attr_bytes :
    (a : Attr) → length (attr_bytes a) ≡ 4 + length a.value + length (padding a.value)
length-attr_bytes a = rw append-nil (omega (arith, length-append a.value (padding a.value)))

length-attrs_onto :
    (attrs : List Attr) (rest : Bytes) → length rest ≤ length (attrs_onto attrs rest)
length-attrs_onto [] rest = omega arith
length-attrs_onto (a ∷ attrs) rest = omega (
  arith,
  length-attrs_onto attrs rest,
  ap length (attr_onto-append a (attrs_onto attrs rest)),
  length-append (attr_bytes a) (attrs_onto attrs rest),
)

pub skip_round :
    (d pre rest : Bytes) (a : Attr) (offset : ℕ)
    → IsSkipped a
    → d ≡ pre ++ attr_onto a rest
    → offset ≡ length pre
    → attr_round d offset ≡ ok (next (length (pre ++ attr_bytes a)))
skip_round d pre rest a offset s e p =
    attr_round-attr_onto d pre rest a offset e p s.typed s.sized ∙ switched
  where
    after : past_attr (offset + 4) (length a.value) ≡ length (pre ++ attr_bytes a)
    after = omega (
      arith,
      past_attr-padding a.value (offset + 4),
      length-append pre (attr_bytes a),
      length-attr_bytes a,
    )

    switched :
        dispatch_attr d (offset + 4) a.attr_type (length a.value)
        ≡ ok (next (length (pre ++ attr_bytes a)))
    switched = unfold dispatch_attr in ground (arith, s.not_xor, s.not_plain, after)

-- The loop goes over the skipped attributes and comes to what stands behind them with fuel left.
pub attr_loop-attrs_onto :
    (attrs : List Attr) (f : ℕ) (d pre rest : Bytes) (end offset : ℕ)
    (result : Outcome StunError StunResult)
    → All IsSkipped attrs
    → d ≡ pre ++ attrs_onto attrs rest
    → offset ≡ length pre
    → length d < f + offset + length rest
    → length d < end + length rest
    → ((f' : ℕ) (pre' : Bytes) → d ≡ pre' ++ rest → attr_loop (suc f') d end (length pre') ≡ result)
    → attr_loop f d end offset ≡ result
unfolding attr_loop
attr_loop-attrs_onto [] zero d pre rest end offset result s e p hf he k =
    absurd (omega (arith, ap length e, length-append pre rest))
attr_loop-attrs_onto [] (suc f) d pre rest end offset result s e p hf he k = rw p (k f pre e)
attr_loop-attrs_onto (a ∷ attrs) zero d pre rest end offset result s e p hf he k = absurd (
    omega (
      arith,
      ap length e,
      length-append pre (attrs_onto (a ∷ attrs) rest),
      length-attrs_onto (a ∷ attrs) rest,
    ))
attr_loop-attrs_onto (a ∷ attrs) (suc f) d pre rest end offset result (s, ss) e p hf he k =
    rw (lt→ltb offset end inside, skip_round d pre (attrs_onto attrs rest) a offset s e p)
      (attr_loop-attrs_onto attrs f d (pre ++ attr_bytes a) rest end (length (pre ++ attr_bytes a))
        result ss moved refl enough he k)
  where
    moved : d ≡ (pre ++ attr_bytes a) ++ attrs_onto attrs rest
    moved =
        e
        ∙ ap (◌++◌ pre) (attr_onto-append a (attrs_onto attrs rest))
        ∙ sym (append_assoc pre (attr_bytes a) (attrs_onto attrs rest))

    length_d : length d ≡ length pre + length (attr_bytes a) + length (attrs_onto attrs rest)
    length_d = omega (
      arith,
      ap length moved,
      length-append (pre ++ attr_bytes a) (attrs_onto attrs rest),
      length-append pre (attr_bytes a),
    )

    inside : offset < end
    inside = omega (arith, length_d, length-attrs_onto attrs rest, length-attr_bytes a)

    enough : length d < f + length (pre ++ attr_bytes a) + length rest
    enough = omega (arith, length-append pre (attr_bytes a), length-attr_bytes a)
