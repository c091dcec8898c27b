-- ===== src/Tests/Stun.antt =====
-- Runs of stun.go, and its theorems at concrete values.
use nexus_stun.Common.{
  ℕ, ◌+◌, ◌≡◌, ◌⊎◌, refl, Option, none, some, List, [], ◌∷◌, Bytes, codes, ok, err, Returns, arith,
  equal, if◌then◌else◌,
}
use nexus_stun.Common.Dict.{lookup}
use nexus_stun.Stun.{StunResult, StunError, parse_binding_response, mapped, nat_unknown}
use nexus_stun.Stun.Total.{parse_binding_response-Returns}
use nexus_stun.Stun.Message.{Attr, attrs_onto, message_onto}
use nexus_stun.Stun.Skipping.{IsSkipped}
use nexus_stun.Stun.RoundTrip.{
  IsResponse, response, xor_attr, xor_value, plain_attr, plain_value,
  parse_binding_response-xor_attr,
}
use nexus_stun.Stun.Reference.{first_address, parse_binding_response-first_address}
use nexus_stun.Stun.Client.{
  StunClient, Reply, no_dial, datagram, all_servers_failed, discover, accept, get_public_endpoint,
  get_nat_type,
}
use nexus_stun.Stun.Client.Discovery.{Answers, AllFail, Verdict, discover_cases, accept_lem}

abbrev transaction_id : Bytes
transaction_id = 8 ∷ 9 ∷ 10 ∷ 11 ∷ 12 ∷ 13 ∷ 14 ∷ 15 ∷ 16 ∷ 17 ∷ 18 ∷ 19 ∷ []

-- SOFTWARE, with three bytes and one of padding
abbrev software : Attr
software = record { attr_type = 0x8022; value = codes "abc" }

software-IsSkipped : IsSkipped software
software-IsSkipped = record {
  typed = omega arith;
  sized = omega arith;
  not_xor = omega arith;
  not_plain = omega arith;
}

parse_binding_response-Returns_example : Returns (parse_binding_response (1 ∷ 1 ∷ 0 ∷ 8 ∷ []))
parse_binding_response-Returns_example = parse_binding_response-Returns (1 ∷ 1 ∷ 0 ∷ 8 ∷ [])

xor_response-IsResponse :
    IsResponse transaction_id (software ∷ []) (xor_attr (xor_value 0 1 4660 203 0 113 7)) [] 20
xor_response-IsResponse = record {
  id = refl;
  all_skipped = (software-IsSkipped, tt);
  whole = omega arith;
  inside = omega arith;
  sized = omega arith;
  value_sized = omega arith;
  type_sized = omega arith;
}

parse_binding_response-xor_attr_example :
    parse_binding_response
      (response transaction_id (software ∷ []) (xor_attr (xor_value 0 1 4660 203 0 113 7)) [] 20)
    ≡ ok (mapped (203 ∷ 0 ∷ 113 ∷ 7 ∷ []) 4660)
parse_binding_response-xor_attr_example =
    parse_binding_response-xor_attr transaction_id (software ∷ []) [] 20 0 1 4660 203 0 113 7
      xor_response-IsResponse (omega arith) (omega arith) (omega arith) (omega arith) (omega arith)

plain_response-IsResponse :
    IsResponse transaction_id (software ∷ []) (plain_attr (plain_value 0 1 4660 203 0 113 7)) [] 20
plain_response-IsResponse = record {
  id = refl;
  all_skipped = (software-IsSkipped, tt);
  whole = omega arith;
  inside = omega arith;
  sized = omega arith;
  value_sized = omega arith;
  type_sized = omega arith;
}

short_response-IsResponse : IsResponse transaction_id [] (xor_attr (0 ∷ 1 ∷ 5 ∷ 6 ∷ [])) [] 8
short_response-IsResponse = record {
  id = refl;
  all_skipped = tt;
  whole = omega arith;
  inside = omega arith;
  sized = omega arith;
  value_sized = omega arith;
  type_sized = omega arith;
}

-- A network whose server "b" is down, while every other server sees one mapping.
abbrev answer : Bytes
answer = response transaction_id [] (xor_attr (xor_value 0 1 4660 203 0 113 7)) [] 12

unfoldable exchange : ℕ → Bytes → Bytes → Reply × ℕ
exchange w server request =
    if equal server (codes "b") then (no_dial, w + 1) else (datagram answer 5, w + 1)

abbrev client : StunClient
client = record {
  cfg = record { servers = codes "a" ∷ codes "c" ∷ []; listen_addr = []; refresh_interval = 30 };
  results = [];
  nat_type = nat_unknown;
  public_ip = [];
  public_port = 0;
}

abbrev seen_by : Bytes → StunResult
seen_by server = record (mapped (203 ∷ 0 ∷ 113 ∷ 7 ∷ []) 4660) { server = server; rtt = 5 }

discover_cases_example :
    ((server : Bytes) × (r : StunResult) × (w : ℕ) × Answers exchange 0
        (codes "a" ∷ codes "c" ∷ [])
        server
        r
        w
      × (discover exchange client 0
          ≡ (ok r, (accept exchange client server r w).0, (accept exchange client server r w).1)))
    ⊎ ((e : Option StunError) × (w : ℕ) × AllFail exchange 0 none (codes "a" ∷ codes "c" ∷ []) e w
        × (discover exchange client 0 ≡ (err (all_servers_failed e), client, w)))
discover_cases_example = discover_cases exchange client 0

accept_lem_example :
    let s = (accept exchange client (codes "a") (seen_by (codes "a")) 1).0 in
    (get_public_endpoint s ≡ (203 ∷ 0 ∷ 113 ∷ 7 ∷ [], 4660))
    × (lookup (codes "a") s.results ≡ some (seen_by (codes "a")))
    × Verdict exchange
        (codes "a" ∷ codes "c" ∷ [])
        (codes "a")
        (seen_by (codes "a"))
        nat_unknown
        1
        (get_nat_type s)
unfolding equal
accept_lem_example = accept_lem exchange client (codes "a") (seen_by (codes "a")) 1 (codes "a")

-- SOFTWARE, and behind it an address
abbrev two_attrs : List Attr
two_attrs = software ∷ xor_attr (xor_value 0 1 4660 203 0 113 7) ∷ []

parse_binding_response-first_address_example :
    parse_binding_response
      (message_onto 0x0101 20 0x2112A442 transaction_id (attrs_onto two_attrs (9 ∷ [])))
    ≡ first_address two_attrs
parse_binding_response-first_address_example =
    parse_binding_response-first_address transaction_id two_attrs (9 ∷ []) refl
      (
        record { type_sized = omega arith; value_sized = omega arith },
        (record { type_sized = omega arith; value_sized = omega arith }, tt),
      )
      (omega arith)
