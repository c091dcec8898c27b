-- ===== src/Relay.antt =====
-- relay.go: the frames. A connection is read as the bytes that have arrived on it; io.ReadFull takes
-- the number that it asks for, or fails where fewer are left.
pub mod Frames
pub mod Streams
pub mod Bounds
pub mod Server
pub mod Client
pub mod Listening
use nexus_stun.Common.{
  ℕ, ◌+◌, ◌%◌, ◌^◌, Bool, true, false, ◌||◌, List, [], ◌∷◌, ◌++◌, ◌==◌, ltb, if◌then◌else◌, length,
  take, drop, Bytes, index, uint32, put_uint32, Outcome, ok, err, ◌>>=◌, ◌>>◌, reject,
}

pub record RelayMessage : Type 0 where
  pub msg_type : ℕ
  pub src_node : Bytes
  pub dst_node : Bytes
  pub payload : Bytes

abbrev pub relay_msg_data : ℕ
relay_msg_data = 0x01

abbrev pub relay_msg_register : ℕ
relay_msg_register = 0x02

abbrev pub relay_msg_ping : ℕ
relay_msg_ping = 0x03

abbrev pub relay_msg_pong : ℕ
relay_msg_pong = 0x04

abbrev pub relay_msg_disconnect : ℕ
relay_msg_disconnect = 0x05

pub data RelayError : Type 0 where
  short_read payload_too_large : RelayError

-- A value that was read, and the bytes behind it.
abbrev pub Read : Type 0 → Type 0
Read A = Outcome RelayError (A × Bytes)

unfoldable pub read_full : ℕ → Bytes → Read Bytes
read_full n s = if ltb (length s) n then err short_read else ok (take n s, drop n s)

unfoldable pub read_string : Bytes → Read Bytes
read_string s = do (len_buf, s') ← read_full 1 s; n ← index len_buf 0; read_full n s'

abbrev pub is_ping_or_pong : ℕ → Bool
is_ping_or_pong t = t == relay_msg_ping || t == relay_msg_pong

-- the payload with its length, behind the type test
unfoldable pub read_sized : Bytes → Read Bytes
read_sized s = do
  (len_buf, s') ← read_full 4 s
  payload_len ← uint32 len_buf
  reject (ltb 65535 payload_len) payload_too_large
  read_full payload_len s'

unfoldable pub read_payload : ℕ → Bytes → Read Bytes
read_payload t s = if t == relay_msg_data then read_sized s else ok ([], s)

-- what follows the type of a frame that is no ping or pong
unfoldable pub read_body : ℕ → Bytes → Read RelayMessage
read_body t s = do
  (src, s1) ← read_string s
  (dst, s2) ← read_string s1
  (payload, s3) ← read_payload t s2
  ok (record { msg_type = t; src_node = src; dst_node = dst; payload = payload }, s3)

abbrev pub bare : ℕ → RelayMessage
bare t = record { msg_type = t; src_node = []; dst_node = []; payload = [] }

unfoldable pub read_message : Bytes → Read RelayMessage
read_message s = do
  (header, s') ← read_full 1 s
  t ← index header 0
  if is_ping_or_pong t then ok (bare t, s') else read_body t s'

unfoldable pub write_string : Bytes → Bytes
write_string s = length s % 256 ∷ s

-- The bytes that sendMessage writes to the connection; uint32(len(payload)) wraps.
unfoldable pub send_message : ℕ → Bytes → Bytes → Bytes → Bytes
send_message t src dst payload =
    if is_ping_or_pong t
    then t ∷ []
    else t
      ∷ (write_string src
          ++ (write_string dst
              ++ (if t == relay_msg_data
                  then put_uint32 (length payload % 2 ^ 32) ++ payload
                  else [])))
