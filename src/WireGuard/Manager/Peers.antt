-- ===== src/WireGuard/Manager/Peers.antt =====
-- wireguard.go: the peers that the manager keeps, over any calls of AddPeer and UpdatePeerEndpoint.
use nexus_stun.Common.{
  ◌≡◌, ◌⊎◌, refl, subst, sym, ap, ◌∙◌, inl, inr, Bool, false, Option, none, some, List, [], ◌∷◌,
  ◌==◌, ==_iff, length, Bytes, equal, equal_iff, Outcome, ok, err, panic, out_of_fuel, Bool-cases,
}
use nexus_stun.Common.Dict.{Dict, lookup, insert, lookup-insert}
use nexus_stun.WireGuard.{PeerState, WireGuardManager, Device, Base64}
use nexus_stun.WireGuard.Settings.{peer_config, endpoint_config}
use nexus_stun.WireGuard.Manager.{
  WireGuardError, new_peer, key_of, ipc_set, enter, add_keyed, add_peer, update_entry,
  update_peer_endpoint,
}

pub key_of_inv :
    (o : Option Bytes) (key : Bytes) → key_of o ≡ some key → (o ≡ some key) × (length key ≡ 32)
key_of_inv none key e = cc
key_of_inv (some b) key e = elim (Bool-cases (length b == 32)) [
  | inl y ↦
      let same : b ≡ key = cc (rw y at e) in
      (ap some same, ap length (sym same) ∙ (==_iff (length b) 32).0 y)
  | inr n ↦ cc (rw n at e)
]

lookup-insert_inv :
    (name k : Bytes) (peer p : PeerState) (m : Dict PeerState)
    → lookup k (insert name peer m) ≡ some p
    → ((name ≡ k) × (peer ≡ p)) ⊎ (lookup k m ≡ some p)
lookup-insert_inv name k peer p m e = elim (Bool-cases (equal name k)) [
  | inl y ↦ inl ((equal_iff name k).0 y, cc (rw (lookup-insert name k peer m, y) at e))
  | inr n ↦ inr (rw (lookup-insert name k peer m, n) at e)
]

-- A call of the manager, with its arguments.
pub data Call : Type 0 where
  add : Bytes → Bytes → List Bytes → Bytes → Bytes → Call
  update_endpoint : Bytes → Bytes → Bool → Call

module _ {D : Type 0} (device : Device D) (base64 : Base64) where
  lookup-enter :
      (m : WireGuardManager D) (name : Bytes) (peer : PeerState)
      (r : Outcome WireGuardError (Unit {0}) × Option D) (k : Bytes) (p : PeerState)
      → lookup k (enter device base64 m name peer r).1.peers ≡ some p
      → ((name ≡ k) × (peer ≡ p)) ⊎ (lookup k m.peers ≡ some p)
  unfolding enter
  lookup-enter m name peer (ok u, tun) k p e = lookup-insert_inv name k peer p m.peers e
  lookup-enter m name peer (err x, tun) k p e = inr e
  lookup-enter m name peer (panic, tun) k p e = inr e
  lookup-enter m name peer (out_of_fuel, tun) k p e = inr e

  lookup-add_keyed :
      (m : WireGuardManager D) (name public_key : Bytes) (allowed_ips : List Bytes)
      (endpoint fallback : Bytes) (o : Option Bytes) (k : Bytes) (p : PeerState)
      → lookup k (add_keyed device base64 m name public_key allowed_ips endpoint fallback o).1.peers
        ≡ some p
      → ((key : Bytes) × (o ≡ some key) × (name ≡ k) × (new_peer name key endpoint ≡ p))
        ⊎ (lookup k m.peers ≡ some p)
  unfolding add_keyed
  lookup-add_keyed m name public_key allowed_ips endpoint fallback none k p e = inr e
  lookup-add_keyed m name public_key allowed_ips endpoint fallback (some key) k p e =
      elim (lookup-enter m name (new_peer name key endpoint)
        (ipc_set device base64 m.tun (peer_config public_key allowed_ips endpoint fallback)) k p
        e) [ inl (same, at_peer) ↦ inl (key, refl, same, at_peer) | inr old ↦ inr old ]

  -- An entry after AddPeer is that of the call, with its decoded key, or an old one.
  pub lookup-add_peer :
      (m : WireGuardManager D) (name public_key : Bytes) (allowed_ips : List Bytes)
      (endpoint fallback k : Bytes) (p : PeerState)
      → lookup k (add_peer device base64 m name public_key allowed_ips endpoint fallback).1.peers
        ≡ some p
      → ((key : Bytes) × (key_of (base64.decode public_key) ≡ some key)
          × (name ≡ k)
          × (new_peer name key endpoint ≡ p))
        ⊎ (lookup k m.peers ≡ some p)
  unfolding add_peer
  lookup-add_peer m name public_key allowed_ips endpoint fallback k p e =
      lookup-add_keyed m name public_key allowed_ips endpoint fallback
        (key_of (base64.decode public_key)) k p e

  lookup-update_entry :
      (m : WireGuardManager D) (name endpoint : Bytes) (via_relay : Bool) (o : Option PeerState)
      (k : Bytes) (p : PeerState)
      → lookup k (update_entry device base64 m name endpoint via_relay o).1.peers ≡ some p
      → ((q : PeerState) × (o ≡ some q)
          × (name ≡ k)
          × (record q { endpoint = endpoint; via_relay = via_relay } ≡ p))
        ⊎ (lookup k m.peers ≡ some p)
  unfolding update_entry
  lookup-update_entry m name endpoint via_relay none k p e = inr e
  lookup-update_entry m name endpoint via_relay (some q) k p e =
      elim (lookup-enter m name (record q { endpoint = endpoint; via_relay = via_relay })
        (ipc_set device base64 m.tun (endpoint_config (base64.encode q.public_key) endpoint)) k p
        e) [ inl (same, at_peer) ↦ inl (q, refl, same, at_peer) | inr old ↦ inr old ]

  unfoldable pub on_call : WireGuardManager D → Call → WireGuardManager D
  unfolding add_peer update_peer_endpoint
  on_call m (add name public_key allowed_ips endpoint fallback) =
      (add_peer device base64 m name public_key allowed_ips endpoint fallback).1
  on_call m (update_endpoint name endpoint via_relay) =
      (update_peer_endpoint device base64 m name endpoint via_relay).1

  unfoldable pub on_calls : WireGuardManager D → List Call → WireGuardManager D
  on_calls m [] = m
  on_calls m (c ∷ calls) = on_calls (on_call m c) calls

-- What every call keeps true of an entry: its key is its name, its key has 32 bytes, it is never connected
-- and no allowed address is recorded.
abbrev pub IsFiled : Bytes → PeerState → Type 0
IsFiled k p =
    (p.name ≡ k) × (length p.public_key ≡ 32) × (p.connected ≡ false) × (p.allowed_ips ≡ [])

abbrev AreFiled : Dict PeerState → Type 0
AreFiled peers = (k : Bytes) (p : PeerState) → lookup k peers ≡ some p → IsFiled k p

module _ {D : Type 0} (device : Device D) (base64 : Base64) where
  on_call-AreFiled :
      (m : WireGuardManager D) (c : Call)
      → AreFiled m.peers
      → AreFiled (on_call device base64 m c).peers
  unfolding on_call update_peer_endpoint
  on_call-AreFiled m (add name public_key allowed_ips endpoint fallback) filed k p e =
      elim (lookup-add_peer device base64 m name public_key allowed_ips endpoint fallback k p e) [
        | inl (key, decoded, same, at_peer) ↦ (
          ap (λ q. q.name) (sym at_peer) ∙ same,
          ap (λ q. length q.public_key) (sym at_peer)
              ∙ (key_of_inv (base64.decode public_key) key decoded).1,
          ap (λ q. q.connected) (sym at_peer),
          ap (λ q. q.allowed_ips) (sym at_peer),
        )
        | inr old ↦ filed k p old
      ]
  on_call-AreFiled m (update_endpoint name endpoint via_relay) filed k p e =
      elim (lookup-update_entry device base64 m name endpoint via_relay (lookup name m.peers) k p
        e) [
          | inl (q, found, same, at_peer) ↦ subst (IsFiled k) at_peer (
              subst (λ j. IsFiled j (record q { endpoint = endpoint; via_relay = via_relay })) same
                (filed name q found))
          | inr old ↦ filed k p old
        ]

  on_calls-AreFiled :
      (calls : List Call) (m : WireGuardManager D)
      → AreFiled m.peers
      → AreFiled (on_calls device base64 m calls).peers
  unfolding on_calls
  on_calls-AreFiled [] m filed = filed
  on_calls-AreFiled (c ∷ calls) m filed =
      on_calls-AreFiled calls (on_call device base64 m c) (on_call-AreFiled m c filed)

  -- After any calls of AddPeer and UpdatePeerEndpoint on a manager without peers, whatever the device
  -- answers, every entry is kept under its own name, has a key of 32 bytes, is never marked as connected, and
  -- has no allowed addresses.
  pub on_calls-IsFiled :
      (m : WireGuardManager D) (calls : List Call) (k : Bytes) (p : PeerState)
      → m.peers ≡ []
      → lookup k (on_calls device base64 m calls).peers ≡ some p
      → IsFiled k p
  unfolding lookup
  on_calls-IsFiled m calls k p empty e =
      on_calls-AreFiled calls m (λ j q f. absurd (cc (rw empty at f))) k p e
