-- ===== src/Stun/Client/Discovery.antt =====
-- stun.go: what Discover does with the servers' answers, in terms of the first server that answers.
use nexus_stun.Common.{
  ℕ, ◌≡◌, ◌≢◌, ◌⊎◌, inl, inr, refl, ap, sym, true, ◌==◌, equal_iff, arith, ◌∙◌, false, Option, none,
  some, List, [], ◌∷◌, if◌then◌else◌, take, get_elem?, Bytes, equal, Outcome, ok, err, panic,
  out_of_fuel, ◌>>=◌, Returns, Bool-cases, Option-cases,
}
use nexus_stun.Common.Ip.{ip_equal}
use nexus_stun.Common.Dict.{lookup, insert, equal_refl, lookup-insert}
use nexus_stun.Stun.Total.{parse_binding_response-Returns}
use nexus_stun.Stun.{
  NatType, nat_unknown, nat_full_cone, nat_symmetric, StunError, StunResult, parse_binding_response,
  build_binding_request,
}
use nexus_stun.Stun.Client.{
  StunClient, Reply, no_dial, no_send, no_read, datagram, read_reply, DiscoverError,
  all_servers_failed, get_public_endpoint, get_nat_type, record_result, classify,
  is_first_of_several, binding_request, detect_with, detect_nat_type, accept, discover_loop,
  discover,
}

-- A call that returns gives a value or an error.
Returns-cases :
    {A : Type 0} (m : Outcome StunError A)
    → Returns m
    → ((a : A) × (m ≡ ok a)) ⊎ ((e : StunError) × (m ≡ err e))
Returns-cases (ok a) h = inl (a, refl)
Returns-cases (err e) h = inr (e, refl)
Returns-cases panic h = elim h [ ]
Returns-cases out_of_fuel h = elim h [ ]

parsed-Returns :
    (m : Outcome StunError StunResult) (server : Bytes) (rtt : ℕ)
    → Returns m
    → Returns (m >>= λ result. ok (record result { server = server; rtt = rtt }))
parsed-Returns (ok r) server rtt h = tt
parsed-Returns (err e) server rtt h = tt
parsed-Returns panic server rtt h = elim h [ ]
parsed-Returns out_of_fuel server rtt h = elim h [ ]

read_reply-Returns : (server : Bytes) (r : Reply) → Returns (read_reply server r)
unfolding read_reply
read_reply-Returns server no_dial = tt
read_reply-Returns server no_send = tt
read_reply-Returns server no_read = tt
read_reply-Returns server (datagram d rtt) =
    parsed-Returns (parse_binding_response (take 1024 d)) server rtt
      (parse_binding_response-Returns (take 1024 d))

module _ {W : Type 0} (exchange : W → Bytes → Bytes → Reply × W) where
  -- Asked in order from world `w`, the servers fail up to `server`, which answers `r` in world `w'`.
  pub data Answers : W → List Bytes → Bytes → StunResult → W → Type 0 where
    here :
        {w w' : W} {server : Bytes} {servers : List Bytes} {r : StunResult}
        → binding_request exchange server w ≡ (ok r, w')
        → Answers w (server ∷ servers) server r w'
    later :
        {w w' w'' : W} {server found : Bytes} {servers : List Bytes} {r : StunResult}
        {e : StunError}
        → binding_request exchange server w ≡ (err e, w')
        → Answers w' servers found r w''
        → Answers w (server ∷ servers) found r w''

  -- All of them fail; the last error is kept.
  pub data AllFail : W → Option StunError → List Bytes → Option StunError → W → Type 0 where
    done : {w : W} {e : Option StunError} → AllFail w e [] e w
    fails :
        {w w' w'' : W} {server : Bytes} {servers : List Bytes} {e : StunError}
        {e' e'' : Option StunError}
        → binding_request exchange server w ≡ (err e, w')
        → AllFail w' (some e) servers e'' w''
        → AllFail w e' (server ∷ servers) e'' w''

  Accepted :
      StunClient → W → List Bytes → Outcome DiscoverError StunResult × StunClient × W → Type 0
  Accepted s w servers out =
      (server : Bytes) × (r : StunResult) × (w' : W) × Answers w servers server r w'
      × (out ≡ (ok r, (accept exchange s server r w').0, (accept exchange s server r w').1))

  Refused :
      StunClient
      → W
      → Option StunError
      → List Bytes
      → Outcome DiscoverError StunResult × StunClient × W
      → Type 0
  Refused s w e servers out =
      (e' : Option StunError) × (w' : W) × AllFail w e servers e' w'
      × (out ≡ (err (all_servers_failed e'), s, w'))

  binding_request_cases :
      (server : Bytes) (w : W)
      → let w' = (binding_request exchange server w).1 in
        ((r : StunResult) × (binding_request exchange server w ≡ (ok r, w')))
        ⊎ ((e : StunError) × (binding_request exchange server w ≡ (err e, w')))
  unfolding binding_request
  binding_request_cases server w =
      let (reply, w') = exchange w server build_binding_request in
      elim (Returns-cases (read_reply server reply) (read_reply-Returns server reply)) [
        | inl (r, e) ↦ inl (r, λ i. (e i, w'))
        | inr (e, p) ↦ inr (e, λ i. (p i, w'))
      ]

  discover_loop_cases :
      (servers : List Bytes) (s : StunClient) (e : Option StunError) (w : W)
      → Accepted s w servers (discover_loop exchange servers s e w)
        ⊎ Refused s w e servers (discover_loop exchange servers s e w)
  unfolding discover_loop Accepted Refused
  discover_loop_cases [] s e w = inr (e, w, done, refl)
  discover_loop_cases (server ∷ servers) s e w = elim (binding_request_cases server w) [
    | inl (r, p) ↦ inl (server, r, _, here p, rw (p, discover_loop) refl)
    | inr (x, p) ↦
        elim (discover_loop_cases servers s (some x) (binding_request exchange server w).1) [
          | inl (found, r, w', a, q) ↦ inl (found, r, w', later p a, rw (p, discover_loop) q)
          | inr (e', w', f, q) ↦ inr (e', w', fails p f, rw (p, discover_loop) q)
        ]
  ]

  -- Discover ends on every input, in one of two ways. Some server is the first that answers: then it
  -- returns that answer, and the client is the one that accepts it. Or all servers fail: then it
  -- returns an error with the last failure, and the client is unchanged.
  pub discover_cases :
      (s : StunClient) (w : W)
      → ((server : Bytes) × (r : StunResult) × (w' : W) × Answers w s.cfg.servers server r w'
          × (discover exchange s w
              ≡ (ok r, (accept exchange s server r w').0, (accept exchange s server r w').1)))
        ⊎ ((e : Option StunError) × (w' : W) × AllFail w none s.cfg.servers e w'
            × (discover exchange s w ≡ (err (all_servers_failed e), s, w')))
  unfolding discover Accepted Refused
  discover_cases s w = discover_loop_cases s.cfg.servers s none w

  accept_endpoint :
      (s : StunClient) (server : Bytes) (r : StunResult) (w : W)
      → let s' = (accept exchange s server r w).0 in
        (get_public_endpoint s' ≡ (r.mapped_ip, r.mapped_port))
        × (s'.results ≡ insert server r s.results)
        × (s'.cfg ≡ s.cfg)
  unfolding accept detect_nat_type record_result get_public_endpoint
  accept_endpoint s server r w = elim (Bool-cases (is_first_of_several server s.cfg.servers)) [
    | inl several ↦ rw several (elim (Option-cases (get_elem? s.cfg.servers 1)) [
      | inl e ↦ rw e (unfold detect_with in (refl, refl, refl))
      | inr (x, e) ↦ rw e (unfold detect_with in (refl, refl, refl))
    ])
    | inr alone ↦ rw alone (refl, refl, refl)
  ]

  accept-classify :
      (s : StunClient) (r : StunResult) (w : W) (first second : Bytes) (rest : List Bytes)
      → s.cfg.servers ≡ first ∷ second ∷ rest
      → (accept exchange s first r w).0.nat_type ≡ classify r (binding_request exchange second w).0
  unfolding accept detect_nat_type detect_with is_first_of_several record_result
  accept-classify s r w first second rest e = rw (e, equal_refl first) refl

  -- An answer from a later server does the same for the endpoint and leaves the NAT type alone.
  pub accept_later :
      (s : StunClient) (server : Bytes) (r : StunResult) (w : W)
      → is_first_of_several server s.cfg.servers ≡ false
      → accept exchange s server r w ≡ (record_result s server r, w)
  unfolding accept
  accept_later s server r w h = rw h refl

  -- The NAT type after `server` answered `r` in world `w`.
  pub data Verdict (servers : List Bytes) (server : Bytes) (r : StunResult) (before : NatType)
      (w : W) : NatType → Type 0 where
    cone :
        {second : Bytes} {rest : List Bytes} {r' : StunResult}
        → servers ≡ server ∷ second ∷ rest
        → (binding_request exchange second w).0 ≡ ok r'
        → ip_equal r.mapped_ip r'.mapped_ip ≡ true
        → r.mapped_port ≡ r'.mapped_port
        → Verdict servers server r before w nat_full_cone
    symmetric :
        {second : Bytes} {rest : List Bytes} {r' : StunResult}
        → servers ≡ server ∷ second ∷ rest
        → (binding_request exchange second w).0 ≡ ok r'
        → (ip_equal r.mapped_ip r'.mapped_ip ≡ false) ⊎ (r.mapped_port ≢ r'.mapped_port)
        → Verdict servers server r before w nat_symmetric
    undetected :
        {second : Bytes} {rest : List Bytes} {e : StunError}
        → servers ≡ server ∷ second ∷ rest
        → (binding_request exchange second w).0 ≡ err e
        → Verdict servers server r before w nat_unknown
    kept :
        ((second : Bytes) (rest : List Bytes) → servers ≢ server ∷ second ∷ rest)
        → Verdict servers server r before w before

  first_of_several_cases :
      (server : Bytes) (servers : List Bytes)
      → ((second : Bytes) × (rest : List Bytes) × (servers ≡ server ∷ second ∷ rest))
        ⊎ ((is_first_of_several server servers ≡ false)
            × ((second : Bytes) (rest : List Bytes) → servers ≢ server ∷ second ∷ rest))
  unfolding is_first_of_several
  first_of_several_cases server [] = inr (refl, λ second rest e. absurd (cc e))
  first_of_several_cases server (s ∷ []) = inr (refl, λ second rest e. absurd (cc e))
  first_of_several_cases server (s ∷ second ∷ rest) = elim (Bool-cases (equal server s)) [
    | inl same ↦ inl (second, rest, ap (λ x. x ∷ second ∷ rest) (sym ((equal_iff server s).0 same)))
    | inr other ↦ inr (
      other,
      λ second' rest' e.
          let same : equal server s ≡ true = (equal_iff server s).1 (cc e) in
          absurd (cc (same, other)),
    )
  ]

  classify-Verdict :
      (servers : List Bytes) (server second : Bytes) (rest : List Bytes) (r : StunResult)
      (before : NatType) (w : W)
      → servers ≡ server ∷ second ∷ rest
      → Verdict servers server r before w (classify r (binding_request exchange second w).0)
  unfolding classify
  classify-Verdict servers server second rest r before w e = elim (binding_request_cases second w) [
    | inr (x, p) ↦ rw p (undetected e (ap (λ out. out.0) p))
    | inl (r', p) ↦ elim (Bool-cases (ip_equal r.mapped_ip r'.mapped_ip)) [
      | inr other ↦ rw (p, other) (symmetric e (ap (λ out. out.0) p) (inl other))
      | inl same ↦ elim (Bool-cases (r.mapped_port == r'.mapped_port)) [
        | inl port ↦ rw (p, same, port) (cone e (ap (λ out. out.0) p) same (ground (arith, port)))
        | inr port ↦
            rw (p, same, port)
              (symmetric e (ap (λ out. out.0) p) (inr (λ q. ground (arith, port, q))))
      ]
    ]
  ]

  -- Accepting a server's answer makes its mapped address the public endpoint and files the answer under
  -- the server, for any client, server, answer and network. Where the server is the first of at least
  -- two, the second is asked: the NAT type is full cone if it answers with an equal address and the same
  -- port, symmetric if it answers with another address or another port, and unknown if it fails. Else the
  -- NAT type stays as it was.
  pub accept_lem :
      (s : StunClient) (server : Bytes) (r : StunResult) (w : W) (k : Bytes)
      → let s' = (accept exchange s server r w).0 in
        (get_public_endpoint s' ≡ (r.mapped_ip, r.mapped_port))
        × (lookup k s'.results ≡ (if equal server k then some r else lookup k s.results))
        × Verdict s.cfg.servers server r s.nat_type w (get_nat_type s')
  unfolding get_nat_type record_result
  accept_lem s server r w k =
      let (endpoint, filed, _) = accept_endpoint s server r w in
      (
        endpoint,
        ap (lookup k) filed ∙ lookup-insert server k r s.results,
        elim (first_of_several_cases server s.cfg.servers) [
          | inl (second, rest, e) ↦
              rw (accept-classify s r w server second rest e)
                (classify-Verdict s.cfg.servers server second rest r s.nat_type w e)
          | inr (single, none_behind) ↦ rw (accept_later s server r w single) (kept none_behind)
        ],
      )
