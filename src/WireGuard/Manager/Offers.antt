-- ===== src/WireGuard/Manager/Offers.antt =====
-- wireguard.go: the loop of Start over the configured peers, and what it makes of each of them.
use nexus_stun.Common.{
  ◌≡◌, ◌≢◌, ◌⊎◌, false, length, ◌==◌, err, subst, refl, sym, ap, ◌∙◌, inl, inr, true, Option, none,
  some, [], ◌∷◌, if◌then◌else◌, Bytes, equal, equal_iff, ok, Bool-cases, arith,
}
use nexus_stun.Common.Dict.{
  Dict, lookup, lookup-insert, lookup-insert_self, IsUnique, insert-IsUnique,
}
use nexus_stun.Config.{PeerConf}
use nexus_stun.Config.Loading.{others_of}
use nexus_stun.WireGuard.{PeerState, WireGuardManager, Device, Base64}
use nexus_stun.WireGuard.Settings.{peer_config}
use nexus_stun.WireGuard.Manager.{
  device_refused, new_peer, key_of, ipc_set, enter, add_keyed, add_peer, add_peers,
}

pub equal→ne : {j k : Bytes} → equal j k ≡ false → j ≢ k
equal→ne {j} {k} n e = let same : equal j k ≡ true = (equal_iff j k).1 e in absurd (cc (same, n))

pub others_of-IsUnique :
    (node_name : Bytes) (peers : Dict PeerConf) → IsUnique (others_of node_name peers)
unfolding others_of
others_of-IsUnique node_name [] = tt
others_of-IsUnique node_name ((name, peer) ∷ peers) = elim (Bool-cases (equal name node_name)) [
  | inl own ↦ rw own (others_of-IsUnique node_name peers)
  | inr other ↦
      rw other
        (insert-IsUnique name peer (others_of node_name peers) (others_of-IsUnique node_name peers))
]

key_of_cases :
    (o : Option Bytes)
    → ((key : Bytes) × (o ≡ some key) × (length key ≡ 32) × (key_of o ≡ some key))
      ⊎ ((key_of o ≡ none) × ((key : Bytes) → o ≡ some key → length key ≢ 32))
key_of_cases none = inr (refl, λ key e. absurd (cc e))
key_of_cases (some key) = elim (Bool-cases (length key == 32)) [
  | inl y ↦ inl (key, refl, ground (arith, y), rw y refl)
  | inr n ↦
      inr (
        rw n refl,
        λ key' e l. let same : key ≡ key' = cc e in ground (arith, n, l, ap length same),
      )
]

module _ {D : Type 0} (device : Device D) (base64 : Base64) where
  -- the text for the device that adds a configured peer
  abbrev pub offer : PeerConf → Bytes
  offer conf = peer_config conf.public_key conf.allowed_ips conf.endpoint conf.tailscale_fallback

  -- What becomes of the entry of a configured peer, `before` it is offered to the device.
  pub data Offered (name : Bytes) (conf : PeerConf) (before : Option PeerState)
      : Option PeerState → Type 0 where
    entered :
        {key : Bytes} {p : PeerState} {d : D}
        → conf.public_key ≢ []
        → base64.decode conf.public_key ≡ some key
        → length key ≡ 32
        → (device.ipc_set d (offer conf)).0 ≡ true
        → p.name ≡ name
        → p.public_key ≡ key
        → p.endpoint ≡ conf.endpoint
        → p.connected ≡ false
        → p.via_relay ≡ false
        → Offered name conf before (some p)
    unusable :
        ((key : Bytes)
          → conf.public_key ≢ []
          → base64.decode conf.public_key ≡ some key
          → length key ≢ 32)
        → Offered name conf before before
    refused : {d : D} → (device.ipc_set d (offer conf)).0 ≡ false → Offered name conf before before

  -- What a step of the loop leaves: a device, the other names' entries, and this name's.
  abbrev Adds : WireGuardManager D → WireGuardManager D → Bytes → PeerConf → Type 0
  Adds m m' name conf =
      (d : D) × (m'.tun ≡ some d)
      × ((k : Bytes) → equal name k ≡ false → lookup k m'.peers ≡ lookup k m.peers)
      × Offered name conf (lookup name m.peers) (lookup name m'.peers)

  ipc_set_cases :
      (d : D) (config : Bytes)
      → ((device.ipc_set d config).0 ≡ true)
          × (ipc_set device base64 (some d) config ≡ (ok tt, some (device.ipc_set d config).1))
        ⊎ ((device.ipc_set d config).0 ≡ false)
          × (ipc_set device base64 (some d) config
              ≡ (err device_refused, some (device.ipc_set d config).1))
  unfolding ipc_set
  ipc_set_cases d config = elim (Bool-cases (device.ipc_set d config).0) [
    | inl y ↦ inl (y, rw y refl)
    | inr n ↦ inr (n, rw n refl)
  ]

  add_keyed-Adds :
      (m : WireGuardManager D) (d : D) (name key : Bytes) (conf : PeerConf)
      → conf.public_key ≢ []
      → base64.decode conf.public_key ≡ some key
      → length key ≡ 32
      → m.tun ≡ some d
      → Adds m
          (add_keyed device base64 m name conf.public_key conf.allowed_ips conf.endpoint
            conf.tailscale_fallback
            (some key)).1
          name
          conf
  unfolding add_keyed enter
  add_keyed-Adds m d name key conf given decoded sized at_d = elim (ipc_set_cases d (offer conf)) [
    | inl (y, works) ↦
        rw (at_d, works)
          (
            _,
            refl,
            λ k other. lookup-insert name k _ m.peers ∙ rw other refl,
            rw (lookup-insert_self name (new_peer name key conf.endpoint) m.peers)
                (entered given decoded sized y refl refl refl refl refl),
          )
    | inr (n, fails) ↦ rw (at_d, fails) (_, refl, λ k other. refl, refused n)
  ]

  step-Adds :
      (m : WireGuardManager D) (d : D) (name : Bytes) (conf : PeerConf)
      → m.tun ≡ some d
      → Adds m
          (if equal conf.public_key []
            then m
            else (add_peer device base64 m name conf.public_key conf.allowed_ips conf.endpoint
                conf.tailscale_fallback).1)
          name
          conf
  unfolding add_peer
  step-Adds m d name conf at_d = elim (Bool-cases (equal conf.public_key [])) [
    | inl y ↦ rw y (
      d,
      at_d,
      λ k other. refl,
      unusable λ key given decoded sized. given ((equal_iff conf.public_key []).0 y),
    )
    | inr n ↦ elim (key_of_cases (base64.decode conf.public_key)) [
      | inl (key, decoded, sized, found) ↦
          rw (n, found) (add_keyed-Adds m d name key conf (equal→ne n) decoded sized at_d)
      | inr (invalid, bad) ↦
          rw (n, invalid)
            (unfold add_keyed in
              (d, at_d, λ k other. refl, unusable λ key given decoded. bad key decoded))
    ]
  ]

  -- the same for a name that may not be configured
  abbrev pub Placed : Bytes → Option PeerConf → Option PeerState → Option PeerState → Type 0
  Placed k none before after = after ≡ before
  Placed k (some conf) before after = Offered k conf before after

  pub add_peers-Placed :
      (peers : Dict PeerConf) (m : WireGuardManager D) (d : D) (k : Bytes)
      → IsUnique peers
      → m.tun ≡ some d
      → (let m' = add_peers device base64 m peers in
          (d' : D) × (m'.tun ≡ some d')
          × Placed k (lookup k peers) (lookup k m.peers) (lookup k m'.peers))
  unfolding add_peers lookup
  add_peers-Placed [] m d k u at_d = (d, at_d, refl)
  add_peers-Placed ((name, conf) ∷ peers) m d k (fresh, u) at_d =
      let m1 =
        if equal conf.public_key []
        then m
        else (add_peer device base64 m name conf.public_key conf.allowed_ips conf.endpoint
            conf.tailscale_fallback).1 in
      let after = lookup k (add_peers device base64 m1 peers).peers in
      let (d1, at_d1, others, own) = step-Adds m d name conf at_d in
      let (d2, at_d2, rest) = add_peers-Placed peers m1 d1 k u at_d1 in
      elim (Bool-cases (equal name k)) [
        | inl y ↦
            let same = (equal_iff name k).0 y in
            let unchanged : after ≡ lookup k m1.peers =
              subst (λ o. Placed k o (lookup k m1.peers) after)
                (subst (λ j. lookup j peers ≡ none) same fresh) rest in
            let at_k : Offered k conf (lookup k m.peers) (lookup k m1.peers) =
              subst (λ j. Offered j conf (lookup j m.peers) (lookup j m1.peers)) same own in
            (d2, at_d2, rw y (subst (Offered k conf (lookup k m.peers)) (sym unchanged) at_k))
        | inr n ↦ (
          d2,
          at_d2,
          rw n (subst (λ before. Placed k (lookup k peers) before after) (others k n) rest),
        )
      ]
