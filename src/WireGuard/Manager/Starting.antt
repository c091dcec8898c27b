-- ===== src/WireGuard/Manager/Starting.antt =====
-- wireguard.go: Start, and which peers it adds.
use nexus_stun.Common.{
  ◌≡◌, ◌≢◌, ◌⊎◌, false, subst, Option-cases, refl, sym, ◌∙◌, inl, inr, Option, none, some, [],
  Bytes, equal, equal_iff, Bool-cases,
}
use nexus_stun.Common.Dict.{lookup}
use nexus_stun.Config.{PeerConf}
use nexus_stun.Config.Loading.{get_other_peers, get_peer}
use nexus_stun.Config.Loading.Precedence.{get_other_peers_lem}
use nexus_stun.WireGuard.{WireGuardManager, Device, Base64}
use nexus_stun.WireGuard.Settings.{device_config}
use nexus_stun.WireGuard.Manager.{add_peers, bring_up, start_with, start_on, start, get_node_ip}
use nexus_stun.WireGuard.Manager.Offers.{
  equal→ne, others_of-IsUnique, Offered, Placed, add_peers-Placed,
}

module _ {D : Type 0} (device : Device D) (base64 : Base64) where
  bring_up-peers :
      (m : WireGuardManager D) (o : Option D) → (bring_up device base64 m o).1.peers ≡ m.peers
  unfolding bring_up
  bring_up-peers m none = refl
  bring_up-peers m (some d) = refl

  -- the text for the device with the node's own key and port
  abbrev own_config : WireGuardManager D → Bytes
  own_config m = device_config (base64.encode m.private_key) m.cfg.wire_guard.listen_port

  start_with-Placed :
      (m : WireGuardManager D) (d : D) (k : Bytes)
      → m.peers ≡ []
      → (let peers = (start_with device base64 m d).1.peers in
          Placed device base64 k (lookup k (get_other_peers m.cfg)) none (lookup k peers)
          ⊎ ((device.ipc_set d (own_config m)).0 ≡ false) × (lookup k peers ≡ none))
  unfolding start_with get_other_peers lookup
  start_with-Placed m d k empty =
      let d1 = (device.ipc_set d (own_config m)).1 in
      let m1 = record m { tun = some d1 } in
      let m2 = add_peers device base64 m1 (get_other_peers m.cfg) in
      let (d2, at_d2, placed) =
        add_peers-Placed device base64 (get_other_peers m.cfg) m1 d1 k
          (others_of-IsUnique m.cfg.node_name m.cfg.peers) refl in
      elim (Bool-cases (device.ipc_set d (own_config m)).0) [
        | inl y ↦ rw y (
            inl (
              subst
                (λ peers.
                  Placed device base64 k (lookup k (get_other_peers m.cfg)) none (lookup k peers))
                (sym (bring_up-peers m2 m2.tun))
                (subst
                  (λ before.
                    Placed device base64 k (lookup k (get_other_peers m.cfg)) (lookup k before)
                      (lookup k m2.peers))
                  empty placed)))
        | inr n ↦ rw (n, empty) (inr (refl, refl))
      ]

  -- A node that has no peers yet and calls Start, for any device, keeps for each name either an entry or
  -- none. An entry is there only for another configured peer whose key is not empty and is base64 of 32
  -- bytes, and whose settings the device takes in some state: it has the peer's name, that key and the
  -- configured endpoint, and is neither connected nor over the relay. None is there only for the node
  -- itself, a name that is not configured, a peer without such a key, a peer whose settings the device
  -- refuses in some state, and where the device could not be created or refused its own key and port.
  pub start_peers :
      (parse_cidr : Bytes → Option Bytes) (m : WireGuardManager D) (k : Bytes)
      → m.peers ≡ []
      → let entry = lookup k (start device base64 parse_cidr m).1.peers in
        let created = device.create (get_node_ip parse_cidr m.cfg) m.cfg.wire_guard.mtu in
        ((conf : PeerConf) × (k ≢ m.cfg.node_name)
          × (get_peer m.cfg k ≡ some conf)
          × Offered device base64 k conf none entry)
        ⊎ ((entry ≡ none)
            × ((k ≡ m.cfg.node_name)
                ⊎ (get_peer m.cfg k ≡ none)
                ⊎ (created ≡ none)
                ⊎ ((d : D) × (created ≡ some d) × ((device.ipc_set d (own_config m)).0 ≡ false))))
  unfolding start start_on lookup
  start_peers parse_cidr m k empty =
      elim (Option-cases (device.create (get_node_ip parse_cidr m.cfg) m.cfg.wire_guard.mtu)) [
        | inl nothing ↦ rw (nothing, empty) (inr (refl, inr (inr (inl refl))))
        | inr (d, made) ↦ rw made (elim (start_with-Placed m d k empty) [
          | inr (n, absent) ↦ inr (absent, inr (inr (inr (d, refl, n))))
          | inl placed ↦
              let entry = lookup k (start_with device base64 m d).1.peers in
              elim (Bool-cases (equal k m.cfg.node_name)) [
                | inl own ↦ inr (
                  subst (λ o. Placed device base64 k o none entry) {y = none}
                      (get_other_peers_lem m.cfg k ∙ rw own refl) placed,
                  inl ((equal_iff k m.cfg.node_name).0 own),
                )
                | inr other ↦ elim (Option-cases (get_peer m.cfg k)) [
                  | inl absent ↦ inr (
                    subst (λ o. Placed device base64 k o none entry) {y = none}
                        (get_other_peers_lem m.cfg k ∙ rw (other, absent) refl) placed,
                    inr (inl absent),
                  )
                  | inr (conf, e) ↦ inl (
                    conf,
                    equal→ne other,
                    e,
                    subst (λ o. Placed device base64 k o none entry) {y = some conf}
                        (get_other_peers_lem m.cfg k ∙ rw (other, e) refl) placed,
                  )
                ]
              ]
        ])
      ]
