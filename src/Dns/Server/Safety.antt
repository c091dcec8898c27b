-- ===== src/Dns/Server/Safety.antt =====
-- dns.go: handleQuery does not panic, and does not end on a question whose name points to itself.
use nexus_stun.Common.{
  ℕ, zero, suc, ◌+◌, ◌<◌, ◌≡◌, refl, sym, ap, subst, ◌∙◌, inl, inr, false, List, [], ◌∷◌, ◌++◌,
  ◌==◌, ltb, length, Bytes, All, put_uint16, Outcome, ok, err, panic, out_of_fuel, ◌>>=◌, arith,
  Bool-cases, length-append, append_assoc, slice_within, uint16_within, lt→ltb,
}
use nexus_stun.Dns.Names.{IsLabel}
use nexus_stun.Dns.Termination.{NoPanic, parse_dns_name-NoPanic}
use nexus_stun.Dns.Cycles.{labels_onto, pointer, parse_dns_name_cycle}
use nexus_stun.Dns.{DnsError, NameResult, parse_dns_name}
use nexus_stun.Dns.Server.{
  DnsServer, DnsQuestion, read_question, questions_loop, on_questions, handle_counted, handle_query,
}
use nexus_stun.Dns.Server.Packets.{header_of}

-- Anything but a panic, for a call of any type.
abbrev pub Survives : {A : Type 0} → Outcome DnsError A → Type 0
Survives panic = ⊥
Survives _ = Unit

then-Survives :
    {A B : Type 0} (m : Outcome DnsError A) (k : A → Outcome DnsError B)
    → Survives m
    → ((a : A) → Survives (k a))
    → Survives (m >>= k)
then-Survives (ok a) k h hk = hk a
then-Survives (err e) k h hk = tt
then-Survives panic k h hk = h
then-Survives out_of_fuel k h hk = tt

NoPanic-Survives : (m : NameResult) → NoPanic m → Survives m
NoPanic-Survives (ok a) h = tt
NoPanic-Survives (err e) h = tt
NoPanic-Survives panic h = h
NoPanic-Survives out_of_fuel h = tt

read_question-Survives : (f : ℕ) (d : Bytes) (offset : ℕ) → Survives (read_question f d offset)
unfolding read_question
read_question-Survives f d offset =
    then-Survives (parse_dns_name f d offset) _
      (NoPanic-Survives (parse_dns_name f d offset) (parse_dns_name-NoPanic f d offset []))
      λ (name, o). elim (Bool-cases (ltb (length d) (o + 4))) [
        | inl over ↦ rw over tt
        | inr fits ↦
            let (t, e, l) = slice_within {E = DnsError} d o (o + 2) (omega arith) (ground arith) in
            let (m, e') = uint16_within {E = DnsError} t (omega (arith, l)) in
            let (c, e2, l2) =
              slice_within {E = DnsError} d (o + 2) (o + 4) (omega arith) (ground arith) in
            let (n, e3) = uint16_within {E = DnsError} c (omega (arith, l2)) in
            rw (fits, e, e', e2, e3) tt
      ]

questions_loop-Survives :
    (f n : ℕ) (d : Bytes) (offset : ℕ) (qs : List DnsQuestion)
    → Survives (questions_loop f n d offset qs)
unfolding questions_loop
questions_loop-Survives f zero d offset qs = tt
questions_loop-Survives f (suc n) d offset qs = elim (Bool-cases (ltb offset (length d))) [
  | inl inside ↦ rw inside (
      then-Survives (read_question f d offset) (λ (q, o). questions_loop f n d o (qs ++ q ∷ []))
        (read_question-Survives f d offset)
        (λ (q, o). questions_loop-Survives f n d o (qs ++ q ∷ [])))
  | inr done ↦ rw done tt
]

on_questions-Survives :
    (s : DnsServer) (d : Bytes) (id : ℕ) (m : Outcome DnsError (List DnsQuestion))
    → Survives m
    → Survives (on_questions s d id m)
unfolding on_questions
on_questions-Survives s d id (ok []) h = tt
on_questions-Survives s d id (ok (q ∷ qs)) h = tt
on_questions-Survives s d id (err e) h = tt
on_questions-Survives s d id panic h = h
on_questions-Survives s d id out_of_fuel h = tt

-- Whatever packet arrives, handleQuery stays within it: no index or slice expression panics.
pub handle_query-Survives : (f : ℕ) (s : DnsServer) (d : Bytes) → Survives (handle_query f s d)
unfolding handle_query handle_counted
handle_query-Survives f s d = elim (Bool-cases (ltb (length d) 12)) [
  | inl short ↦ rw short tt
  | inr long ↦
      let (h, e, l) = slice_within {E = DnsError} d 0 2 (omega arith) (ground arith) in
      let (id, e') = uint16_within {E = DnsError} h (omega (arith, l)) in
      let (c, e2, l2) = slice_within {E = DnsError} d 4 6 (omega arith) (ground arith) in
      let (n, e3) = uint16_within {E = DnsError} c (omega (arith, l2)) in
      rw (long, e, e', e2, e3)
        (elim (Bool-cases (n == 0)) [
          | inl none_asked ↦ rw none_asked tt
          | inr some_asked ↦ rw some_asked (
              on_questions-Survives s d id (questions_loop f n d 12 [])
                (questions_loop-Survives f n d 12 []))
        ])
]

labels_onto_pos :
    (ls : List Bytes) (rest : Bytes) → 0 < length (labels_onto ls (pointer 12 ++ rest))
labels_onto_pos [] rest = omega arith
labels_onto_pos (l ∷ ls) rest = omega arith

-- A query packet that counts some question and whose first name ends in a pointer to its own
-- beginning keeps handleQuery from ever ending, whatever labels of at least one and fewer than 192
-- bytes the name has and whatever follows: no amount of fuel is enough.
pub handle_query_cycle :
    (f : ℕ) (s : DnsServer) (id qd : ℕ) (flags counts : Bytes) (ls : List Bytes) (rest : Bytes)
    → id < 65536
    → 0 < qd
    → qd < 65536
    → length flags ≡ 2
    → length counts ≡ 6
    → All IsLabel ls
    → handle_query f s (
        put_uint16 id
        ++ (flags ++ (put_uint16 qd ++ (counts ++ labels_onto ls (pointer 12 ++ rest)))))
      ≡ out_of_fuel
handle_query_cycle f s id zero flags counts ls rest hi hz hq lf lc h = absurd (omega arith)
handle_query_cycle f s id (suc n) flags counts ls rest hi hz hq lf lc h =
    header_of f s id (suc n) flags counts body hi hq lf lc
    ∙ unfold handle_counted questions_loop read_question on_questions in
      rw (not_zero, lt→ltb 12 (length d) (omega (arith, length_d, labels_onto_pos ls rest)), stuck)
        refl
  where
    body : Bytes
    body = labels_onto ls (pointer 12 ++ rest)

    header : Bytes
    header = put_uint16 id ++ (flags ++ (put_uint16 (suc n) ++ counts))

    d : Bytes
    d = put_uint16 id ++ (flags ++ (put_uint16 (suc n) ++ (counts ++ body)))

    length_header : length header ≡ 12
    length_header = omega (arith, length-append flags (put_uint16 (suc n) ++ counts))

    d_eq : d ≡ header ++ body
    d_eq = ap (◌++◌ (put_uint16 id)) (sym (append_assoc flags (put_uint16 (suc n) ++ counts) body))

    length_d : length d ≡ 12 + length body
    length_d = omega (arith, ap length d_eq, length_header, length-append header body)

    not_zero : (suc n == 0) ≡ false
    not_zero = ground arith

    stuck : parse_dns_name f d 12 ≡ out_of_fuel
    stuck =
        subst (λ (t : Bytes). parse_dns_name f t 12 ≡ out_of_fuel) (sym d_eq)
          (subst
            (λ (o : ℕ).
              parse_dns_name f (header ++ labels_onto ls (pointer o ++ rest)) o ≡ out_of_fuel)
            length_header (parse_dns_name_cycle f header ls rest h (omega (arith, length_header))))
