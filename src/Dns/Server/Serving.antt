-- ===== src/Dns/Server/Serving.antt =====
-- dns.go: serveLoop and the goroutines that it starts. Each handler holds a slice of the one buffer, into
-- which the next packet is read.
use nexus_stun.Common.{
  ℕ, ◌≤◌, ◌≡◌, refl, sym, ◌∙◌, subst, ap, List, [], ◌∷◌, ◌++◌, Bytes, length, take, drop,
  length-append, length-take, length-drop, arith, Outcome,
}
use nexus_stun.Dns.{DnsError}
use nexus_stun.Dns.Server.{DnsServer, Reaction, handle_query}

-- conn.ReadFromUDP(buf): the packet, or its first part, over the beginning of the buffer.
abbrev pub received : Bytes → Bytes → Bytes
received buffer packet = take (length buffer) packet ++ drop (length packet) buffer

-- A goroutine that has not read its slice yet: the length, and whom to answer.
pub record Handler : Type 0 where
  pub size : ℕ
  pub remote_addr : ℕ

pub record World : Type 0 where
  pub buffer : Bytes
  pub handlers : List Handler

-- what is done for whom
abbrev pub Answer : Type 0
Answer = ℕ × Outcome DnsError Reaction

module _ (fuel : ℕ) (s : DnsServer) where
  pub data Step (w : World) : World → List Answer → Type 0 where
    receive :
        (packet : Bytes) (remote_addr : ℕ)
        → length packet ≤ length w.buffer
        → Step w
            (record {
              buffer = received w.buffer packet;
              handlers = record { size = length packet; remote_addr = remote_addr } ∷ w.handlers;
            })
            []
    handle :
        (front back : List Handler) (h : Handler)
        → w.handlers ≡ front ++ (h ∷ back)
        → Step w
            (record w { handlers = front ++ back })
            ((h.remote_addr, handle_query fuel s (take h.size w.buffer)) ∷ [])

  pub data Reach (w : World) : World → List Answer → Type 0 where
    here : Reach w w []
    next :
        {u v : World} {before answers : List Answer}
        → Reach w u before
        → Step u v answers
        → Reach w v (before ++ answers)

  take-received :
      (buffer packet : Bytes)
      → length packet ≤ length buffer
      → take (length packet) (received buffer packet) ≡ packet
  take-received buffer [] h = refl
  take-received [] (b ∷ packet) h = absurd (omega (arith, h))
  take-received (a ∷ buffer) (b ∷ packet) h =
      ap (λ p. b ∷ p) (take-received buffer packet (omega (arith, h)))

  length-received :
      (buffer packet : Bytes)
      → length packet ≤ length buffer
      → length (received buffer packet) ≡ length buffer
  length-received buffer packet h = omega (
    arith,
    h,
    length-append (take (length buffer) packet) (drop (length packet) buffer),
    length-take (length buffer) packet,
    length-drop (length packet) buffer,
  )

  -- A packet that is handled before the next one is read gets the answer to itself.
  pub handled_at_once :
      (buffer packet : Bytes) (remote_addr : ℕ) (handlers : List Handler)
      → length packet ≤ length buffer
      → Reach
          (record { buffer = buffer; handlers = handlers })
          (record { buffer = received buffer packet; handlers = handlers })
          ((remote_addr, handle_query fuel s packet) ∷ [])
  handled_at_once buffer packet remote_addr handlers h =
      let read = next here (receive packet remote_addr h) in
      let run =
        next read
          (handle [] handlers (record { size = length packet; remote_addr = remote_addr }) refl) in
      subst
        (λ p.
          Reach (record { buffer = buffer; handlers = handlers })
            (record { buffer = received buffer packet; handlers = handlers })
            ((remote_addr, handle_query fuel s p) ∷ []))
        (take-received buffer packet h) run

  -- A packet whose goroutine has not read its slice of the buffer when the next packet comes is lost: if
  -- that one has the same length and the first fits the buffer, a run of the server answers both senders
  -- with what handleQuery makes of the second packet.
  pub handled_late :
      (buffer first second : Bytes) (asker other : ℕ) (handlers : List Handler)
      → length first ≤ length buffer
      → length second ≡ length first
      → (v : World) × Reach
          (record { buffer = buffer; handlers = handlers })
          v
          ((asker, handle_query fuel s second) ∷ (other, handle_query fuel s second) ∷ [])
  handled_late buffer first second asker other handlers h same =
      let mid = received buffer first in
      let fits : length second ≤ length mid =
        omega (arith, h, same, length-received buffer first h) in
      let asked : Handler = record { size = length first; remote_addr = asker } in
      let overtaken : Handler = record { size = length second; remote_addr = other } in
      let read = next (next here (receive first asker h)) (receive second other fits) in
      let run =
        next (next read (handle (overtaken ∷ []) handlers asked refl))
          (handle [] handlers overtaken refl) in
      let mine : take (length second) (received mid second) ≡ second =
        take-received mid second fits in
      let theirs : take (length first) (received mid second) ≡ second =
        ap (λ n. take n (received mid second)) (sym same) ∙ mine in
      let end : World = record { buffer = received mid second; handlers = handlers } in
      let answered : Bytes → Bytes → Type 0 = λ p q.
        Reach (record { buffer = buffer; handlers = handlers }) end
          ((asker, handle_query fuel s p) ∷ (other, handle_query fuel s q) ∷ []) in
      (
        end,
        subst (λ p. answered p second) theirs
            (subst (λ q. answered (take (length first) (received mid second)) q) mine run),
      )
