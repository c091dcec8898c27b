-- ===== src/Dns/Cycles.antt =====
-- dns.go: a name on which parseDNSName's recursion does not end.
use nexus_stun.Common.{
  ℕ, zero, suc, ◌+◌, ◌*◌, ◌/◌, ◌%◌, ◌≤◌, ◌<◌, ◌≡◌, refl, sym, ap, ◌∙◌, bit_and, true, false, List,
  [], ◌∷◌, ◌++◌, ◌==◌, leb, length, Bytes, All, slice, index, uint16, ok, out_of_fuel, arith,
  slice_at, index-append, length-append, append_assoc,
}
use nexus_stun.Common.Bits.{bit_and_0x3fff}
use nexus_stun.Dns.Names.{IsLabel, label_round}
use nexus_stun.Dns.{
  DnsError, NameResult, follow_pointer, name_round, parse_dns_name_loop, parse_dns_name,
}

-- The labels alone, with no end.
abbrev pub labels_onto : List Bytes → Bytes → Bytes
labels_onto [] rest = rest
labels_onto (l ∷ ls) rest = length l % 256 ∷ (l ++ labels_onto ls rest)

-- A pointer to the place `target`.
abbrev pub pointer : ℕ → Bytes
pointer target = (0xC0 + target / 256) ∷ target % 256 ∷ []

pointer_round :
    (d pre rest : Bytes) (target : ℕ) (rec : ℕ → List Bytes → NameResult) (offset : ℕ)
    (parts : List Bytes)
    → target < 16384
    → d ≡ pre ++ (pointer target ++ rest)
    → offset ≡ length pre
    → rec target [] ≡ out_of_fuel
    → name_round d rec offset parts ≡ out_of_fuel
unfolding name_round follow_pointer uint16
pointer_round d pre rest target rec offset parts h e p r =
    rw (at_length, at_index, not_end, is_pointer, room, at_pointer, uint16, masked, r) refl
  where
    length_d : length d ≡ length pre + 2 + length rest
    length_d = omega (arith, ap length e, length-append pre (pointer target ++ rest))

    at_length : leb (length d) offset ≡ false
    at_length = ground (arith, length_d)

    at_index : index {E = DnsError} d offset ≡ ok (0xC0 + target / 256)
    at_index =
        rw e (index-append {E = DnsError} pre (target % 256 ∷ rest) (0xC0 + target / 256) offset p)

    not_end : (0xC0 + target / 256 == 0) ≡ false
    not_end = ground arith

    is_pointer : leb 0xC0 (0xC0 + target / 256) ≡ true
    is_pointer = ground arith

    room : leb (length d) (offset + 1) ≡ false
    room = ground (arith, length_d)

    at_pointer : slice {E = DnsError} d offset (offset + 2) ≡ ok (pointer target)
    at_pointer = slice_at d pre (pointer target) rest offset (offset + 2) e p refl

    masked : bit_and ((0xC0 + target / 256) * 256 + target % 256) 0x3FFF ≡ target
    masked = bit_and_0x3fff ((0xC0 + target / 256) * 256 + target % 256) (omega arith) ∙ omega arith

-- Over labels the loop comes to what stands behind them, with no more fuel than before.
labels_run :
    (ls : List Bytes) (f : ℕ) (d pre rest : Bytes) (offset : ℕ) (parts : List Bytes)
    → All IsLabel ls
    → d ≡ pre ++ labels_onto ls rest
    → offset ≡ length pre
    → ((f' : ℕ) (pre' : Bytes) (parts' : List Bytes)
        → f' ≤ f
        → d ≡ pre' ++ rest
        → parse_dns_name_loop f' d (length pre') parts' ≡ out_of_fuel)
    → parse_dns_name_loop f d offset parts ≡ out_of_fuel
unfolding parse_dns_name_loop
labels_run [] f d pre rest offset parts h e p k = rw p (k f pre parts (omega arith) e)
labels_run (l ∷ ls) zero d pre rest offset parts h e p k = refl
labels_run (l ∷ ls) (suc f) d pre rest offset parts (hl, h) e p k =
    label_round d pre l (labels_onto ls rest) (parse_dns_name_loop f d) offset parts hl e p
    ∙ labels_run ls f d (pre ++ (length l % 256 ∷ l)) rest (offset + 1 + length l) (parts ++ l ∷ [])
        h (e ∙ sym (append_assoc pre (length l % 256 ∷ l) (labels_onto ls rest)))
        (omega (arith, length-append pre (length l % 256 ∷ l)))
        (λ f' pre' parts' q. k f' pre' parts' (omega arith))

-- At the pointer every smaller amount of fuel has to fail at the beginning of the name.
at_pointer_runs_out :
    (f f' : ℕ) (d pre' rest : Bytes) (target : ℕ) (parts : List Bytes)
    → target < 16384
    → d ≡ pre' ++ (pointer target ++ rest)
    → f' ≤ f
    → ((f'' : ℕ) → f'' < f → parse_dns_name_loop f'' d target [] ≡ out_of_fuel)
    → parse_dns_name_loop f' d (length pre') parts ≡ out_of_fuel
unfolding parse_dns_name_loop
at_pointer_runs_out f zero d pre' rest target parts t e q again = refl
at_pointer_runs_out f (suc f') d pre' rest target parts t e q again =
    pointer_round d pre' rest target (parse_dns_name_loop f' d) (length pre') parts t e refl
      (again f' (omega arith))

cycle :
    (k f : ℕ) (pre : Bytes) (ls : List Bytes) (rest : Bytes) (parts : List Bytes)
    → f < k
    → All IsLabel ls
    → length pre < 16384
    → parse_dns_name_loop f
        (pre ++ labels_onto ls (pointer (length pre) ++ rest))
        (length pre)
        parts
      ≡ out_of_fuel
cycle zero f pre ls rest parts lt h t = absurd (omega arith)
cycle (suc k) f pre ls rest parts lt h t =
    labels_run ls f (pre ++ labels_onto ls (pointer (length pre) ++ rest)) pre
      (pointer (length pre) ++ rest) (length pre) parts h refl refl
      (λ f' pre' parts' q e.
        at_pointer_runs_out f f' (pre ++ labels_onto ls (pointer (length pre) ++ rest)) pre' rest
          (length pre) parts' t e q (λ f'' q'. cycle k f'' pre ls rest [] (omega arith) h t))

-- A name that ends in a pointer to its own beginning is never parsed, whatever labels of at least
-- one and fewer than 192 bytes it has and wherever it stands below the reach of a pointer: no
-- amount of fuel is enough, so the recursion of parseDNSName does not end.
pub parse_dns_name_cycle :
    (f : ℕ) (pre : Bytes) (ls : List Bytes) (rest : Bytes)
    → All IsLabel ls
    → length pre < 16384
    → parse_dns_name f (pre ++ labels_onto ls (pointer (length pre) ++ rest)) (length pre)
      ≡ out_of_fuel
parse_dns_name_cycle f pre ls rest h t = cycle (suc f) f pre ls rest [] (omega arith) h t
