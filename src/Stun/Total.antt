-- ===== src/Stun/Total.antt =====
-- stun.go: parseBindingResponse stays within its slices, and its loop ends.
use nexus_stun.Common.{
  ℕ, zero, suc, ◌+◌, ◌≤◌, ◌<◌, ◌≡◌, refl, inl, inr, false, [], arith, ltb, ◌==◌, Bool-cases, length,
  Bytes, slice, uint16, slice_within, uint16_within, uint32_within, index_within, Outcome, ok,
  ◌>>=◌, Returns, not,
}
use nexus_stun.Stun.{
  StunError, StunResult, AttrRound, stop, found, next, xor_ip, read_xor_addr, parse_xor_mapped_addr,
  read_mapped_addr, parse_mapped_addr, dispatch_attr, attr_header, attr_body, attr_round,
  after_round, attr_loop, parse_binding_response, stun_magic_cookie, stun_class_success,
  stun_method_binding, stun_attr_xor_mapped, stun_attr_mapped_addr,
}

-- The call returns a value.
abbrev pub Yields : {A : Type 0} → Outcome StunError A → Type 0
Yields {A} m = (a : A) × (m ≡ ok a)

Yields-bind :
    {A B : Type 0} (m : Outcome StunError A) (f : A → Outcome StunError B)
    → Yields m
    → ((a : A) → Yields (f a))
    → Yields (m >>= f)
Yields-bind m f (a, e) h = rw e (h a)

-- a slice of n bytes read as a 16-bit number
Yields-uint16 : (d : Bytes) (lo : ℕ) → lo + 2 ≤ length d → Yields (slice d lo (lo + 2) >>= uint16)
Yields-uint16 d lo h =
    let (s, e, n) = slice_within {E = StunError} d lo (lo + 2) (omega arith) h in
    rw e (uint16_within s (omega (arith, n)))

xor_ip-Yields : (n i : ℕ) (d : Bytes) → 4 + i + n ≤ length d → Yields (xor_ip n i d)
unfolding xor_ip
xor_ip-Yields zero i d h = ([], refl)
xor_ip-Yields (suc n) i d h =
    let (b, e) = index_within {E = StunError} d (4 + i) (omega arith) in
    let (ip, e') = xor_ip-Yields n (i + 1) d (omega arith) in rw (e, e') (_, refl)

read_xor_addr-Yields : (d : Bytes) → 8 ≤ length d → Yields (read_xor_addr d)
unfolding read_xor_addr
read_xor_addr-Yields d h =
    let (s, e, l) = slice_within {E = StunError} d 2 4 (omega arith) (omega arith) in
    let (n, e') = uint16_within {E = StunError} s (omega (arith, l)) in
    let (ip, e'') = xor_ip-Yields 4 0 d (omega arith) in rw (e, e', e'') (_, refl)

read_mapped_addr-Yields : (d : Bytes) → 8 ≤ length d → Yields (read_mapped_addr d)
unfolding read_mapped_addr
read_mapped_addr-Yields d h =
    let (s, e, l) = slice_within {E = StunError} d 2 4 (omega arith) (omega arith) in
    let (n, e') = uint16_within {E = StunError} s (omega (arith, l)) in
    let (w, e4) = index_within {E = StunError} d 4 (omega arith) in
    let (x, e5) = index_within {E = StunError} d 5 (omega arith) in
    let (y, e6) = index_within {E = StunError} d 6 (omega arith) in
    let (z, e7) = index_within {E = StunError} d 7 (omega arith) in
    rw (e, e', e4, e5, e6, e7) (_, refl)

parse_xor_mapped_addr-Yields : (d t : Bytes) → Yields (parse_xor_mapped_addr d t)
unfolding parse_xor_mapped_addr
parse_xor_mapped_addr-Yields d t = elim (Bool-cases (ltb (length d) 8)) [
  | inl short ↦ rw short (_, refl)
  | inr long ↦ rw long (read_xor_addr-Yields d (ground arith))
]

parse_mapped_addr-Yields : (d : Bytes) → Yields (parse_mapped_addr d)
unfolding parse_mapped_addr
parse_mapped_addr-Yields d = elim (Bool-cases (ltb (length d) 8)) [
  | inl short ↦ rw short (_, refl)
  | inr long ↦ rw long (read_mapped_addr-Yields d (ground arith))
]

-- A round that goes on has moved the offset by four at least.
abbrev pub Advances : ℕ → AttrRound → Type 0
Advances offset stop = Unit
Advances offset (found r) = Unit
Advances offset (next o) = offset + 4 ≤ o

abbrev pub Rounds : ℕ → Outcome StunError AttrRound → Type 0
Rounds offset m = (r : AttrRound) × (m ≡ ok r) × Advances offset r

dispatch_attr-Rounds :
    (d : Bytes) (offset attr_type attr_len : ℕ)
    → 20 ≤ length d
    → offset + 4 + attr_len ≤ length d
    → Rounds offset (dispatch_attr d (offset + 4) attr_type attr_len)
unfolding dispatch_attr
dispatch_attr-Rounds d offset attr_type attr_len h k =
    elim (Bool-cases (attr_type == stun_attr_xor_mapped)) [
      | inl x ↦
          let (v, e, _) =
            slice_within {E = StunError} d (offset + 4) (offset + 4 + attr_len) (omega arith) k in
          let (t, e', _) = slice_within {E = StunError} d 4 20 (omega arith) h in
          let ((ip, port), e'') = parse_xor_mapped_addr-Yields v t in
          rw (x, e, e', e'') (_, refl, tt)
      | inr x ↦ elim (Bool-cases (attr_type == stun_attr_mapped_addr)) [
        | inl y ↦
            let (v, e, _) =
              slice_within {E = StunError} d (offset + 4) (offset + 4 + attr_len) (omega arith) k in
            let ((ip, port), e'') = parse_mapped_addr-Yields v in rw (x, y, e, e'') (_, refl, tt)
        | inr y ↦ rw (x, y) (_, refl, ground arith)
      ]
    ]

attr_header-Yields :
    (d : Bytes) (offset : ℕ) → offset + 4 ≤ length d → Yields (attr_header d offset)
attr_header-Yields d offset h =
    let (a, e, l) =
      slice_within {E = StunError} d offset (offset + 2) (omega arith) (omega arith) in
    let (m, e') = uint16_within {E = StunError} a (omega (arith, l)) in
    let (b, e2, l2) = slice_within {E = StunError} d (offset + 2) (offset + 4) (omega arith) h in
    let (n, e3) = uint16_within {E = StunError} b (omega (arith, l2)) in
    rw (e, e', e2, e3) (_, refl)

attr_body-Rounds :
    (d : Bytes) (offset : ℕ) (a : ℕ × ℕ) → 20 ≤ length d → Rounds offset (attr_body d offset a)
attr_body-Rounds d offset (m, n) h = elim (Bool-cases (ltb (length d) (offset + 4 + n))) [
  | inl long ↦ rw long (_, refl, tt)
  | inr fits ↦ rw fits (dispatch_attr-Rounds d offset m n h (ground arith))
]

pub attr_round-Rounds :
    (d : Bytes) (offset : ℕ) → 20 ≤ length d → Rounds offset (attr_round d offset)
unfolding attr_round
attr_round-Rounds d offset h = elim (Bool-cases (ltb (length d) (offset + 4))) [
  | inl over ↦ rw over (_, refl, tt)
  | inr in_range ↦
      let (a, e) = attr_header-Yields d offset (ground arith) in
      rw (in_range, e) (attr_body-Rounds d offset a h)
]

after_round-Returns :
    (offset : ℕ) (rest : ℕ → Outcome StunError StunResult) (r : AttrRound)
    → Advances offset r
    → ((o : ℕ) → offset + 4 ≤ o → Returns (rest o))
    → Returns (after_round rest r)
after_round-Returns offset rest stop p h = tt
after_round-Returns offset rest (found r) p h = tt
after_round-Returns offset rest (next o) p h = h o p

-- One unit of fuel is enough for each byte up to the end.
pub attr_loop-Returns :
    (f : ℕ) (d : Bytes) (end offset : ℕ)
    → 20 ≤ length d
    → 0 < f
    → end < f + offset
    → Returns (attr_loop f d end offset)
unfolding attr_loop
attr_loop-Returns zero d end offset h z k = absurd (omega arith)
attr_loop-Returns (suc f) d end offset h z k = elim (Bool-cases (ltb offset end)) [
  | inl inside ↦
      let (r, e, p) = attr_round-Rounds d offset h in
      let lt : offset < end = ground arith in
      rw (inside, e)
        (after_round-Returns offset (attr_loop f d end) r p
          (λ o q. attr_loop-Returns f d end o h (omega arith) (omega arith)))
  | inr done ↦ rw done tt
]

-- parseBindingResponse returns a result or an error on every input: none of its slice and index
-- expressions is out of range, and its loop ends.
pub parse_binding_response-Returns : (d : Bytes) → Returns (parse_binding_response d)
unfolding parse_binding_response
parse_binding_response-Returns d = elim (Bool-cases (ltb (length d) 20)) [
  | inl short ↦ rw short tt
  | inr long ↦
      let long' : 20 ≤ length d = ground arith in
      let (c, e, l) = slice_within {E = StunError} d 4 8 (omega arith) (omega arith) in
      let (cookie, e') = uint32_within {E = StunError} c (omega (arith, l)) in
      let (t, e2, l2) = slice_within {E = StunError} d 0 2 (omega arith) (omega arith) in
      let (m, e3) = uint16_within {E = StunError} t (omega (arith, l2)) in
      let (s, e4, l4) = slice_within {E = StunError} d 2 4 (omega arith) (omega arith) in
      let (n, e5) = uint16_within {E = StunError} s (omega (arith, l4)) in
      let loop = λ (fits : ltb (length d) (20 + n) ≡ false).
        attr_loop-Returns (suc (length d)) d (20 + n) 20 long' (omega arith) (ground arith) in
      rw (long, e, e')
        (elim (Bool-cases (not (cookie == stun_magic_cookie))) [
          | inl bad ↦ rw bad tt
          | inr good ↦
              rw (good, e2, e3)
                (elim (Bool-cases (not (m == stun_class_success + stun_method_binding))) [
                  | inl bad ↦ rw bad tt
                  | inr good' ↦
                      rw (good', e4, e5)
                        (elim (Bool-cases (ltb (length d) (20 + n))) [
                          | inl bad ↦ rw bad tt
                          | inr fits ↦ rw fits (loop fits)
                        ])
                ])
        ])
]
