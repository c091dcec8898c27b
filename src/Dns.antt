-- ===== src/Dns.antt =====
-- dns.go: domain names on the wire.
pub mod Names
pub mod Termination
pub mod Cycles
pub mod Server
use nexus_stun.Common.{
  ℕ, zero, suc, ◌+◌, ◌%◌, bit_and, Bool, true, false, List, [], ◌∷◌, ◌++◌, ◌==◌, leb, ltb,
  if◌then◌else◌, length, Bytes, codes, slice, index, uint16, Outcome, ok, err, out_of_fuel, ◌>>=◌,
}
use nexus_stun.Common.Text.{split, join}

abbrev pub dot : ℕ
dot = b'.'

pub data DnsError : Type 0 where
  name_out_of_bounds pointer_out_of_bounds label_out_of_bounds question_out_of_bounds : DnsError

-- A name and the offset behind it.
abbrev pub NameResult : Type 0
NameResult = Outcome DnsError (Bytes × ℕ)

-- The branch of a compression pointer; `rec` is the recursive call.
unfoldable pub follow_pointer : Bytes → (ℕ → List Bytes → NameResult) → ℕ → List Bytes → NameResult
follow_pointer d rec offset parts =
    if leb (length d) (offset + 1) then err pointer_out_of_bounds else (do
      p ← slice d offset (offset + 2)
      n ← uint16 p
      (name, _) ← rec (bit_and n 0x3FFF) []
      ok (join dot (parts ++ split dot name), offset + 2))

-- The branch of a plain label; `rec` is the rest of the loop.
unfoldable pub take_label : Bytes → (ℕ → List Bytes → NameResult) → ℕ → List Bytes → ℕ → NameResult
take_label d rec offset parts len =
    if ltb (length d) (offset + 1 + len) then err label_out_of_bounds else (do
      label ← slice d (offset + 1) (offset + 1 + len)
      rec (offset + 1 + len) (parts ++ label ∷ []))

abbrev pub on_length : Bytes → (ℕ → List Bytes → NameResult) → ℕ → List Bytes → ℕ → NameResult
on_length d rec offset parts len =
    if len == 0
    then ok (join dot parts, offset + 1)
    else if leb 0xC0 len
    then follow_pointer d rec offset parts
    else take_label d rec offset parts len

-- One round of the loop: the end of the name, a pointer, or a label.
unfoldable pub name_round : Bytes → (ℕ → List Bytes → NameResult) → ℕ → List Bytes → NameResult
name_round d rec offset parts =
    if leb (length d) offset
    then err name_out_of_bounds
    else index d offset >>= on_length d rec offset parts

-- The loop of parseDNSName with `parts` so far, and its recursive call, on fuel.
unfoldable pub parse_dns_name_loop : ℕ → Bytes → ℕ → List Bytes → NameResult
parse_dns_name_loop zero d offset parts = out_of_fuel
parse_dns_name_loop (suc f) d offset parts = name_round d (parse_dns_name_loop f d) offset parts

abbrev pub parse_dns_name : ℕ → Bytes → ℕ → NameResult
parse_dns_name f d offset = parse_dns_name_loop f d offset []

unfoldable pub encode_parts : List Bytes → Bytes
encode_parts [] = 0 ∷ []
encode_parts (part ∷ parts) = length part % 256 ∷ (part ++ encode_parts parts)

unfoldable pub encode_dns_name : Bytes → Bytes
unfolding encode_parts
encode_dns_name name = encode_parts (split dot name)
