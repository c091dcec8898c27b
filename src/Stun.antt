-- ===== src/Stun.antt =====
-- stun.go: the binding request, the binding response and its attributes. net.IP is a byte list,
-- with nil as the empty one.
pub mod Total
pub mod Message
pub mod Skipping
pub mod Reference
pub mod RoundTrip
pub mod Client
use nexus_stun.Common.{
  ℕ, zero, suc, ◌+◌, ◌-◌, ◌*◌, ◌/◌, ◌%◌, ◌^◌, bit_xor, true, false, [], ◌∷◌, ◌++◌, ◌==◌, ltb,
  if◌then◌else◌, length, Bytes, codes, slice, index, uint16, uint32, put_uint16, put_uint32,
  Outcome, ok, err, out_of_fuel, ◌>>=◌, ◌>>◌, reject, not,
}
use nexus_stun.Common.Ip.{ipv4}

abbrev pub stun_magic_cookie : ℕ
stun_magic_cookie = 0x2112A442

abbrev pub stun_method_binding : ℕ
stun_method_binding = 0x0001

abbrev pub stun_class_success : ℕ
stun_class_success = 0x0100

abbrev pub stun_attr_mapped_addr : ℕ
stun_attr_mapped_addr = 0x0001

abbrev pub stun_attr_xor_mapped : ℕ
stun_attr_xor_mapped = 0x0020

pub data NatType : Type 0 where
  nat_none nat_full_cone nat_restricted_cone nat_port_restricted nat_symmetric nat_unknown : NatType

pub nat_type_string : NatType → Bytes
nat_type_string nat_none = codes "No NAT (public IP)"
nat_type_string nat_full_cone = codes "Full Cone NAT"
nat_type_string nat_restricted_cone = codes "Restricted Cone NAT"
nat_type_string nat_port_restricted = codes "Port Restricted Cone NAT"
nat_type_string nat_symmetric = codes "Symmetric NAT"
nat_type_string nat_unknown = codes "Unknown"

pub record StunResult : Type 0 where
  pub mapped_ip : Bytes
  pub mapped_port : ℕ
  pub server : Bytes
  pub rtt : ℕ
  pub nat_type : NatType

-- &STUNResult{MappedIP: ip, MappedPort: port}, the other fields zero
abbrev pub mapped : Bytes → ℕ → StunResult
mapped ip port = record {
  mapped_ip = ip;
  mapped_port = port;
  server = [];
  rtt = 0;
  nat_type = nat_none;
}

pub data StunError : Type 0 where
  too_short bad_cookie bad_message_type truncated no_mapped_address : StunError
  dial_failed send_failed read_failed : StunError

-- for i := 8; i < 20; i++ { msg[i] = byte(i) }: the rounds left, and i
transaction_bytes : ℕ → ℕ → Bytes
transaction_bytes zero i = []
transaction_bytes (suc n) i = i % 256 ∷ transaction_bytes n (i + 1)

unfoldable pub build_binding_request : Bytes
unfolding transaction_bytes
build_binding_request =
    put_uint16 stun_method_binding
    ++ (put_uint16 0 ++ (put_uint32 stun_magic_cookie ++ transaction_bytes 12 8))

-- byte(stunMagicCookie >> (24 - i*8))
abbrev pub cookie_byte : ℕ → ℕ
cookie_byte i = stun_magic_cookie / 2 ^ (24 - i * 8) % 256

-- for i := 0; i < 4; i++ { ip[i] = data[4+i] ^ ... }: the rounds left, and i
unfoldable pub xor_ip : ℕ → ℕ → Bytes → Outcome StunError Bytes
xor_ip zero i d = ok []
xor_ip (suc n) i d = do
  b ← index d (4 + i)
  rest ← xor_ip n (i + 1) d
  ok (bit_xor b (cookie_byte i) ∷ rest)

-- the function behind its length check
unfoldable pub read_xor_addr : Bytes → Outcome StunError (Bytes × ℕ)
read_xor_addr d = do
  p ← slice d 2 4
  n ← uint16 p
  ip ← xor_ip 4 0 d
  ok (ip, bit_xor n (stun_magic_cookie / 2 ^ 16))

unfoldable pub parse_xor_mapped_addr : Bytes → Bytes → Outcome StunError (Bytes × ℕ)
parse_xor_mapped_addr d transaction_id = if ltb (length d) 8 then ok ([], 0) else read_xor_addr d

-- the function behind its length check
unfoldable pub read_mapped_addr : Bytes → Outcome StunError (Bytes × ℕ)
read_mapped_addr d = do
  p ← slice d 2 4
  port ← uint16 p
  w ← index d 4
  x ← index d 5
  y ← index d 6
  z ← index d 7
  ok (ipv4 w x y z, port)

unfoldable pub parse_mapped_addr : Bytes → Outcome StunError (Bytes × ℕ)
parse_mapped_addr d = if ltb (length d) 8 then ok ([], 0) else read_mapped_addr d

-- How one round of the attribute loop ends: by `break`, by `return`, or at the next offset.
pub data AttrRound : Type 0 where
  stop : AttrRound
  found : StunResult → AttrRound
  next : ℕ → AttrRound

-- offset += attrLen, and the padding to a 4-byte boundary
abbrev pub past_attr : ℕ → ℕ → ℕ
past_attr offset attr_len =
    if attr_len % 4 == 0 then offset + attr_len else offset + attr_len + (4 - attr_len % 4)

abbrev pub found_at : Bytes × ℕ → Outcome StunError AttrRound
found_at (ip, port) = ok (found (mapped ip port))

-- the switch on the attribute's type
unfoldable pub dispatch_attr : Bytes → ℕ → ℕ → ℕ → Outcome StunError AttrRound
dispatch_attr d offset attr_type attr_len =
    if attr_type == stun_attr_xor_mapped
    then (do
      v ← slice d offset (offset + attr_len)
      t ← slice d 4 20
      a ← parse_xor_mapped_addr v t
      found_at a)
    else if attr_type == stun_attr_mapped_addr
    then (do v ← slice d offset (offset + attr_len); a ← parse_mapped_addr v; found_at a)
    else ok (next (past_attr offset attr_len))

-- the two reads of an attribute's header: type and length
abbrev pub attr_header : Bytes → ℕ → Outcome StunError (ℕ × ℕ)
attr_header d offset = do
  a ← slice d offset (offset + 2)
  attr_type ← uint16 a
  l ← slice d (offset + 2) (offset + 4)
  attr_len ← uint16 l
  ok (attr_type, attr_len)

-- the body of the loop behind the header
abbrev pub attr_body : Bytes → ℕ → ℕ × ℕ → Outcome StunError AttrRound
attr_body d offset (attr_type, attr_len) =
    if ltb (length d) (offset + 4 + attr_len)
    then ok stop
    else dispatch_attr d (offset + 4) attr_type attr_len

-- the body of the loop
unfoldable pub attr_round : Bytes → ℕ → Outcome StunError AttrRound
attr_round d offset =
    if ltb (length d) (offset + 4) then ok stop else attr_header d offset >>= attr_body d offset

-- what follows a round: the rest of the loop, at the next offset
abbrev pub after_round :
    (ℕ → Outcome StunError StunResult) → AttrRound → Outcome StunError StunResult
after_round rest stop = err no_mapped_address
after_round rest (found s) = ok s
after_round rest (next o) = rest o

-- The loop, on fuel: every round moves the offset by four at least.
unfoldable pub attr_loop : ℕ → Bytes → ℕ → ℕ → Outcome StunError StunResult
attr_loop zero d end offset = out_of_fuel
attr_loop (suc f) d end offset =
    if ltb offset end
    then attr_round d offset >>= after_round (attr_loop f d end)
    else err no_mapped_address

-- The fuel is the length of the data, and one more.
unfoldable pub parse_binding_response : Bytes → Outcome StunError StunResult
parse_binding_response d = do
  reject (ltb (length d) 20) too_short
  c ← slice d 4 8
  cookie ← uint32 c
  reject (not (cookie == stun_magic_cookie)) bad_cookie
  t ← slice d 0 2
  msg_type ← uint16 t
  reject (not (msg_type == stun_class_success + stun_method_binding)) bad_message_type
  l ← slice d 2 4
  msg_len ← uint16 l
  reject (ltb (length d) (20 + msg_len)) truncated
  attr_loop (suc (length d)) d (20 + msg_len) 20
