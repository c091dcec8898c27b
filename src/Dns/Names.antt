-- ===== src/Dns/Names.antt =====
-- dns.go: parseDNSName reads what encodeDNSName writes, ends where no pointer is in the way, and does
-- not end on a pointer to itself.
use nexus_stun.Common.{
  ℕ, zero, suc, ◌+◌, ◌%◌, ◌<◌, ◌≡◌, refl, sym, ap, ◌∙◌, false, List, [], ◌∷◌, ◌++◌, ◌==◌, leb, ltb,
  length, Bytes, All, slice, index, ok, arith, slice_at, index-append, length-append, append_assoc,
  append-nil,
}
use nexus_stun.Common.Text.{split, join, join-split}
use nexus_stun.Dns.{
  dot, DnsError, NameResult, take_label, name_round, parse_dns_name_loop, parse_dns_name,
  encode_parts, encode_dns_name,
}

-- A label that is neither the end of a name nor read as a pointer.
pub record IsLabel (l : Bytes) : Type 0 where
  pub some_byte : 0 < length l
  pub below_pointers : length l < 0xC0

pub label_round :
    (d pre l rest : Bytes) (rec : ℕ → List Bytes → NameResult) (offset : ℕ) (parts : List Bytes)
    → IsLabel l
    → d ≡ pre ++ (length l % 256 ∷ (l ++ rest))
    → offset ≡ length pre
    → name_round d rec offset parts ≡ rec (offset + 1 + length l) (parts ++ l ∷ [])
unfolding name_round take_label
label_round d pre l rest rec offset parts h e p =
    rw (at_length, at_index, not_end, not_pointer, short, at_label) refl
  where
    length_d : length d ≡ length pre + 1 + length l + length rest
    length_d =
        omega (
          arith,
          ap length e,
          length-append pre (length l % 256 ∷ (l ++ rest)),
          length-append l rest,
        )

    at_length : leb (length d) offset ≡ false
    at_length = ground (arith, length_d)

    small : length l % 256 ≡ length l
    small = omega (arith, h.below_pointers)

    at_index : index {E = DnsError} d offset ≡ ok (length l)
    at_index =
        rw e (index-append {E = DnsError} pre (l ++ rest) (length l % 256) offset p) ∙ ap ok small

    not_end : (length l == 0) ≡ false
    not_end = ground (arith, h.some_byte)

    not_pointer : leb 0xC0 (length l) ≡ false
    not_pointer = ground (arith, h.below_pointers)

    short : ltb (length d) (offset + 1 + length l) ≡ false
    short = ground (arith, length_d)

    at_label : slice {E = DnsError} d (offset + 1) (offset + 1 + length l) ≡ ok l
    at_label =
        slice_at d (pre ++ (length l % 256 ∷ [])) l rest (offset + 1) (offset + 1 + length l)
          (e ∙ sym (append_assoc pre (length l % 256 ∷ []) (l ++ rest)))
          (omega (arith, length-append pre (length l % 256 ∷ []))) refl

end_round :
    (d pre rest : Bytes) (rec : ℕ → List Bytes → NameResult) (offset : ℕ) (parts : List Bytes)
    → d ≡ pre ++ (0 ∷ rest)
    → offset ≡ length pre
    → name_round d rec offset parts ≡ ok (join dot parts, offset + 1)
unfolding name_round
end_round d pre rest rec offset parts e p = rw (at_length, at_index) refl
  where
    at_length : leb (length d) offset ≡ false
    at_length = ground (arith, ap length e, length-append pre (0 ∷ rest))

    at_index : index {E = DnsError} d offset ≡ ok 0
    at_index = rw e (index-append {E = DnsError} pre rest 0 offset p)

-- The loop over encoded labels, from any labels read so far.
parse_dns_name_loop-encode_parts :
    (ls : List Bytes) (f : ℕ) (d pre rest : Bytes) (offset : ℕ) (parts : List Bytes)
    → All IsLabel ls
    → d ≡ pre ++ (encode_parts ls ++ rest)
    → offset ≡ length pre
    → length ls < f
    → parse_dns_name_loop f d offset parts
      ≡ ok (join dot (parts ++ ls), offset + length (encode_parts ls))
unfolding parse_dns_name_loop encode_parts
parse_dns_name_loop-encode_parts ls zero d pre rest offset parts h e p k = absurd (omega arith)
parse_dns_name_loop-encode_parts [] (suc f) d pre rest offset parts h e p k =
    end_round d pre rest (parse_dns_name_loop f d) offset parts e p ∙ rw append-nil refl
parse_dns_name_loop-encode_parts (l ∷ ls) (suc f) d pre rest offset parts (hl, h) e p k =
    label_round d pre l (encode_parts ls ++ rest) (parse_dns_name_loop f d) offset parts hl e' p
    ∙ parse_dns_name_loop-encode_parts ls f d (pre ++ (length l % 256 ∷ l)) rest
        (offset + 1 + length l) (parts ++ l ∷ []) h moved
        (omega (arith, length-append pre (length l % 256 ∷ l))) (omega arith)
    ∙ same
  where
    e' : d ≡ pre ++ (length l % 256 ∷ (l ++ (encode_parts ls ++ rest)))
    e' = e ∙ ap (λ (t : Bytes). pre ++ (length l % 256 ∷ t)) (append_assoc l (encode_parts ls) rest)

    moved : d ≡ (pre ++ (length l % 256 ∷ l)) ++ (encode_parts ls ++ rest)
    moved = e' ∙ sym (append_assoc pre (length l % 256 ∷ l) (encode_parts ls ++ rest))

    end_eq :
        offset + 1 + length l + length (encode_parts ls)
        ≡ offset + suc (length (l ++ encode_parts ls))
    end_eq = omega (arith, length-append l (encode_parts ls))

    same :
        ◌≡◌ {A = NameResult}
          (ok
            (join dot ((parts ++ l ∷ []) ++ ls), offset + 1 + length l + length (encode_parts ls)))
          (ok (join dot (parts ++ (l ∷ ls)), offset + suc (length (l ++ encode_parts ls))))
    same = rw (append_assoc parts (l ∷ []) ls, end_eq) refl

-- A name of the kind that encodeDNSName can write: its parts between the dots are labels.
abbrev pub IsName : Bytes → Type 0
IsName name = All IsLabel (split dot name)

-- For a name whose labels have at least one and fewer than 192 bytes, parseDNSName reads what
-- encodeDNSName wrote, at any place of a packet and whatever follows, and returns the name and the
-- offset behind it, given one unit of fuel for each label and one more.
pub parse_dns_name-encode_dns_name :
    (f : ℕ) (pre name rest : Bytes)
    → IsName name
    → length (split dot name) < f
    → parse_dns_name f (pre ++ (encode_dns_name name ++ rest)) (length pre)
      ≡ ok (name, length pre + length (encode_dns_name name))
unfolding encode_dns_name
parse_dns_name-encode_dns_name f pre name rest h k =
    parse_dns_name_loop-encode_parts (split dot name) f
      (pre ++ (encode_parts (split dot name) ++ rest)) pre rest (length pre) [] h refl refl k
    ∙ ap (λ (n : Bytes). ok (n, length pre + length (encode_parts (split dot name))))
        (join-split dot name)
