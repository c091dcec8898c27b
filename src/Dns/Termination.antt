-- ===== src/Dns/Termination.antt =====
-- dns.go: when parseDNSName ends. It has no bound on the pointers that it follows.
use nexus_stun.Common.{
  ℕ, zero, suc, ◌+◌, ◌<◌, ◌≡◌, subst, inl, inr, bit_and, false, List, [], ◌∷◌, ◌++◌, ◌==◌, leb, ltb,
  length, Bytes, All, index, Outcome, ok, err, panic, out_of_fuel, ◌>>=◌, Returns, arith,
  Bool-cases, index_within, slice_within, uint16_within,
}
use nexus_stun.Common.Text.{split, join}
use nexus_stun.Dns.{
  dot, DnsError, NameResult, follow_pointer, take_label, on_length, name_round, parse_dns_name_loop,
}

-- Anything but a panic.
abbrev pub NoPanic : NameResult → Type 0
NoPanic panic = ⊥
NoPanic _ = Unit

name_round-NoPanic :
    (d : Bytes) (rec : ℕ → List Bytes → NameResult) (offset : ℕ) (parts : List Bytes)
    → ((o : ℕ) (ps : List Bytes) → NoPanic (rec o ps))
    → NoPanic (name_round d rec offset parts)
unfolding name_round
name_round-NoPanic d rec offset parts h = elim (Bool-cases (leb (length d) offset)) [
  | inl over ↦ rw over tt
  | inr inside ↦
      let (len, e) = index_within {E = DnsError} d offset (ground arith) in
      rw (inside, e) (length_cases len)
]
  where
    named :
        (m : NameResult)
        → NoPanic m
        → NoPanic (m >>= λ (name, _). ok (join dot (parts ++ split dot name), offset + 2))
    named (ok (n, o)) k = tt
    named (err e) k = tt
    named panic k = k
    named out_of_fuel k = tt

    at_pointer : NoPanic (follow_pointer d rec offset parts)
    at_pointer =
        unfold follow_pointer in
        elim (Bool-cases (leb (length d) (offset + 1))) [
          | inl over ↦ rw over tt
          | inr inside ↦
              let (p, e, l) =
                slice_within {E = DnsError} d offset (offset + 2) (omega arith) (ground arith) in
              let (n, e') = uint16_within {E = DnsError} p (omega (arith, l)) in
              rw (inside, e, e') (named (rec (bit_and n 0x3FFF) []) (h (bit_and n 0x3FFF) []))
        ]

    at_label : (len : ℕ) → NoPanic (take_label d rec offset parts len)
    at_label len =
        unfold take_label in
        elim (Bool-cases (ltb (length d) (offset + 1 + len))) [
          | inl over ↦ rw over tt
          | inr inside ↦
              let (l, e, _) =
                slice_within {E = DnsError} d (offset + 1) (offset + 1 + len) (omega arith)
                  (ground arith) in
              rw (inside, e) (h (offset + 1 + len) (parts ++ l ∷ []))
        ]

    length_cases : (len : ℕ) → NoPanic (on_length d rec offset parts len)
    length_cases len = elim (Bool-cases (len == 0)) [
      | inl done ↦ rw done tt
      | inr more ↦ elim (Bool-cases (leb 0xC0 len)) [
        | inl p ↦ rw (more, p) at_pointer
        | inr l ↦ rw (more, l) (at_label len)
      ]
    ]

-- On every packet and offset, parseDNSName stays within the packet: no index or slice expression is
-- out of range, however far the recursion goes.
pub parse_dns_name-NoPanic :
    (f : ℕ) (d : Bytes) (offset : ℕ) (parts : List Bytes)
    → NoPanic (parse_dns_name_loop f d offset parts)
unfolding parse_dns_name_loop
parse_dns_name-NoPanic zero d offset parts = tt
parse_dns_name-NoPanic (suc f) d offset parts =
    name_round-NoPanic d (parse_dns_name_loop f d) offset parts (parse_dns_name-NoPanic f d)

index_All :
    (P : ℕ → Type 0) (d : Bytes) (i : ℕ) {b : ℕ} → All P d → index {E = DnsError} d i ≡ ok b → P b
unfolding index
index_All P [] i h e = cc
index_All P (x ∷ d) zero (hx, h) e = subst P (ok_inv e) hx
  where
    ok_inv : {a b : ℕ} → ◌≡◌ {A = Outcome DnsError ℕ} (ok a) (ok b) → a ≡ b
    ok_inv e = cc
index_All P (x ∷ d) (suc i) (hx, h) e = index_All P d i h e

-- On a packet with no byte that could start a pointer, parseDNSName ends, with a name or an error:
-- one unit of fuel is enough for each byte behind the offset, and one more.
pub parse_dns_name-Returns :
    (f : ℕ) (d : Bytes) (offset : ℕ) (parts : List Bytes)
    → All (λ b. b < 0xC0) d
    → 0 < f
    → length d < f + offset
    → Returns (parse_dns_name_loop f d offset parts)
unfolding parse_dns_name_loop name_round take_label
parse_dns_name-Returns zero d offset parts h z k = absurd (omega arith)
parse_dns_name-Returns (suc f) d offset parts h z k = elim (Bool-cases (leb (length d) offset)) [
  | inl over ↦ rw over tt
  | inr inside ↦
      let lt : offset < length d = ground arith in
      let (len, e) = index_within {E = DnsError} d offset lt in
      let small : len < 0xC0 = index_All (λ b. b < 0xC0) d offset h e in
      let no_pointer : leb 0xC0 len ≡ false = ground arith in
      rw (inside, e)
        (elim (Bool-cases (len == 0)) [
          | inl done ↦ rw done tt
          | inr more ↦
              rw (more, no_pointer)
                (elim (Bool-cases (ltb (length d) (offset + 1 + len))) [
                  | inl over ↦ rw over tt
                  | inr fits ↦
                      let (l, e', _) =
                        slice_within {E = DnsError} d (offset + 1) (offset + 1 + len) (omega arith)
                          (ground arith) in
                      rw (fits, e')
                        (parse_dns_name-Returns f d (offset + 1 + len) (parts ++ l ∷ []) h
                          (ground arith) (omega arith))
                ])
        ])
]
