-- ===== src/Config/Loading/Precedence.antt =====
-- config.go: which value wins, what a loaded configuration always has, and who the others are.
use nexus_stun.Common.{
  ℕ, ℤ, pos, negsuc, ap, ◌==◌, ◌*◌, ◌≡◌, ◌≢◌, ◌⊎◌, refl, sym, ◌∙◌, inl, inr, true, false, Option,
  none, some, List, [], ◌∷◌, ◌++◌, if◌then◌else◌, Bytes, codes, equal, equal_iff, ok, err,
  Bool-cases, arith,
}
use nexus_stun.Common.Dict.{Dict, lookup, lookup-insert}
use nexus_stun.Config.{Config, PeerConf}
use nexus_stun.Config.Loading.{
  or_text, or_duration, or_number, or_list, second, apply_defaults, no_node_name, with_node_name,
  with_secrets, is_default_client_id, with_client_id, load_config, get_peer, others_of,
  get_other_peers,
}

or_text_idem : (s d : Bytes) → or_text (or_text s d) d ≡ or_text s d
or_text_idem [] [] = refl
or_text_idem [] (x ∷ d) = refl
or_text_idem (c ∷ s) d = refl

or_list_idem : (s d : List Bytes) → or_list (or_list s d) d ≡ or_list s d
or_list_idem [] [] = refl
or_list_idem [] (x ∷ d) = refl
or_list_idem (c ∷ s) d = refl

or_number_idem : (n d : ℕ) → or_number (or_number n d) d ≡ or_number n d
or_number_idem n d = ground arith

or_duration_idem : (n : ℤ) (d : ℕ) → or_duration (or_duration n d) d ≡ or_duration n d
or_duration_idem (pos n) d = elim (Bool-cases (n == 0)) [
  | inl y ↦ elim (Bool-cases (d == 0)) [ inl z ↦ rw (y, z) refl | inr z ↦ rw (y, z) refl ]
  | inr y ↦ rw (y, y) refl
]
or_duration_idem (negsuc n) d = refl

or_duration-ne : (n : ℤ) (d : ℕ) → n ≢ pos 0 → or_duration n d ≡ n
or_duration-ne (pos n) d h = elim (Bool-cases (n == 0)) [
  | inl y ↦ absurd (h (ap pos (ground (arith, y))))
  | inr y ↦ rw y refl
]
or_duration-ne (negsuc n) d h = refl

-- A duration of 0 is told from any other.
zero_cases : (n : ℤ) → (n ≡ pos 0) ⊎ (n ≢ pos 0)
zero_cases (pos n) = elim (Bool-cases (n == 0)) [
  | inl y ↦ inl (ap pos (ground (arith, y)))
  | inr y ↦ inr (λ e. let z : n ≡ 0 = cc e in ground (arith, y, z))
]
zero_cases (negsuc n) = inr (λ e. absurd (cc e))

or_duration_lem :
    (n : ℤ) (d : ℕ)
    → ((n ≡ pos 0) × (or_duration n d ≡ pos d)) ⊎ ((n ≢ pos 0) × (or_duration n d ≡ n))
or_duration_lem n d = elim (zero_cases n) [
  | inl e ↦ inl (e, rw e refl)
  | inr h ↦ inr (h, or_duration-ne n d h)
]

or_text-ne : (s d : Bytes) → d ≢ [] → or_text s d ≢ []
or_text-ne [] d h = h
or_text-ne (c ∷ s) d h = λ e. absurd (cc e)

or_list-ne : (s d : List Bytes) → d ≢ [] → or_list s d ≢ []
or_list-ne [] d h = h
or_list-ne (c ∷ s) d h = λ e. absurd (cc e)

ne {ℓ} : {A : Type ℓ} {x : A} {xs : List A} → (x ∷ xs) ≢ []
ne = λ e. absurd (cc e)

-- Defaults are applied once and for all: applying them again changes nothing.
pub apply_defaults_idem : (c : Config) → apply_defaults (apply_defaults c) ≡ apply_defaults c
unfolding apply_defaults
apply_defaults_idem c = simp (or_text_idem, or_list_idem, or_number_idem, or_duration_idem)

lookup-others_of :
    (node_name k : Bytes) (peers : Dict PeerConf)
    → lookup k (others_of node_name peers) ≡ (if equal k node_name then none else lookup k peers)
unfolding others_of lookup
lookup-others_of node_name k [] = elim (Bool-cases (equal k node_name)) [
  | inl e ↦ rw e refl
  | inr e ↦ rw e refl
]
lookup-others_of node_name k ((name, peer) ∷ peers) = elim (Bool-cases (equal name node_name)) [
  | inl own ↦ elim (Bool-cases (equal name k)) [
    | inl same ↦
        let e = (equal_iff name k).0 same in
        let own' : equal k node_name ≡ true = rw (sym e) own in
        rw (own, same) (lookup-others_of node_name k peers ∙ rw own' refl)
    | inr ne ↦ rw (own, ne) (lookup-others_of node_name k peers)
  ]
  | inr other ↦ elim (Bool-cases (equal name k)) [
    | inl same ↦
        let e = (equal_iff name k).0 same in
        let other' : equal k node_name ≡ false = rw (sym e) other in
        rw (other, other', same)
          (lookup-insert name k peer (others_of node_name peers) ∙ rw same refl)
    | inr ne ↦
        rw (other, ne)
          (lookup-insert name k peer (others_of node_name peers)
            ∙ rw ne (lookup-others_of node_name k peers))
  ]
]

-- Another peer is a configured peer whose name is not the node's own, and every such peer is one.
pub get_other_peers_lem :
    (c : Config) (k : Bytes)
    → lookup k (get_other_peers c) ≡ (if equal k c.node_name then none else get_peer c k)
unfolding get_other_peers get_peer
get_other_peers_lem c k = lookup-others_of c.node_name k c.peers

default_client_id_cases :
    (id : Bytes)
    → ((id ≡ []) ⊎ (id ≡ codes "nexus-vpn-dagda")) × (is_default_client_id id ≡ true)
      ⊎ (id ≢ []) × (id ≢ codes "nexus-vpn-dagda") × (is_default_client_id id ≡ false)
default_client_id_cases id = elim (Bool-cases (equal id [])) [
  | inl empty ↦ inl (inl ((equal_iff id []).0 empty), rw empty refl)
  | inr given ↦ elim (Bool-cases (equal id (codes "nexus-vpn-dagda"))) [
    | inl example ↦
        inl (inr ((equal_iff id (codes "nexus-vpn-dagda")).0 example), rw (given, example) refl)
    | inr other ↦ inr (
      λ e. cc (given, (equal_iff id []).1 e),
      λ e. cc (other, (equal_iff id (codes "nexus-vpn-dagda")).1 e),
      rw (given, other) refl,
    )
  ]
]

module _ (getenv : Bytes → Bytes) where
  -- What the loaded configuration c is made of, for the file's configuration: the first of flag,
  -- environment and file that gives a name names the node; a client identifier that is missing or is the
  -- example's follows the node's name.
  abbrev pub IsLoaded : Bytes → Config → Config → Type 0
  IsLoaded node_name file c =
      (c.node_name ≡ or_text node_name (or_text (getenv (codes "NEXUS_NODE")) file.node_name))
      × (c.node_name ≢ [])
      × (((file.mqtt.client_id ≡ []) ⊎ (file.mqtt.client_id ≡ codes "nexus-vpn-dagda"))
            × (c.mqtt.client_id ≡ codes "nexus-vpn-" ++ c.node_name)
          ⊎ (file.mqtt.client_id ≢ [])
            × (file.mqtt.client_id ≢ codes "nexus-vpn-dagda")
            × (c.mqtt.client_id ≡ file.mqtt.client_id))
      × (c.crypto.psk ≡ or_text (getenv (codes "NEXUS_PSK")) file.crypto.psk)
      × (c.mqtt.broker ≢ [])
      × (c.dns.domain ≢ [])
      × (c.stun.servers ≢ [])
      × (((file.mqtt.heartbeat_interval ≡ pos 0) × (c.mqtt.heartbeat_interval ≡ pos (15 * second)))
          ⊎ ((file.mqtt.heartbeat_interval ≢ pos 0)
              × (c.mqtt.heartbeat_interval ≡ file.mqtt.heartbeat_interval)))

  with_client_id-IsLoaded :
      (node_name : Bytes) (file : Config)
      → or_text node_name (or_text (getenv (codes "NEXUS_NODE")) file.node_name) ≢ []
      → IsLoaded node_name file (
          with_client_id
            (with_secrets getenv (with_node_name getenv node_name (apply_defaults file))))
  unfolding apply_defaults
  with_client_id-IsLoaded node_name file h = elim (default_client_id_cases file.mqtt.client_id) [
    | inl (default, e) ↦ rw e (
      refl,
      h,
      inl (default, refl),
      refl,
      or_text-ne file.mqtt.broker _ ne,
      or_text-ne file.dns.domain _ ne,
      or_list-ne file.stun.servers _ ne,
      or_duration_lem file.mqtt.heartbeat_interval (15 * second),
    )
    | inr (given, other, e) ↦ rw e (
      refl,
      h,
      inr (given, other, refl),
      refl,
      or_text-ne file.mqtt.broker _ ne,
      or_text-ne file.dns.domain _ ne,
      or_list-ne file.stun.servers _ ne,
      or_duration_lem file.mqtt.heartbeat_interval (15 * second),
    )
  ]

module _ (expand_env : Bytes → Bytes) (unmarshal : Bytes → Option Config)
    (getenv : Bytes → Bytes) where
  -- A file that parses gives a configuration unless flag, environment and file all leave the node
  -- without a name, and then that is the error. Flag, environment, file is the order of precedence
  -- for the name, and environment before file for the key psk; the client identifier is the
  -- configured one, or follows the node's name where it is missing or nexus-vpn-dagda; a broker, a
  -- domain and STUN servers are always there; the heartbeat interval is the configured one, of either
  -- sign, or 15 seconds where it is 0.
  pub load_config_cases :
      (content node_name : Bytes) (file : Config)
      → unmarshal (expand_env content) ≡ some file
      → let name = or_text node_name (or_text (getenv (codes "NEXUS_NODE")) file.node_name) in
        let loaded = load_config expand_env unmarshal getenv (some content) node_name in
        ((name ≡ []) × (loaded ≡ err no_node_name))
        ⊎ ((c : Config) × (loaded ≡ ok c) × IsLoaded getenv node_name file c)
  unfolding load_config apply_defaults
  load_config_cases content node_name file e =
      elim (Bool-cases
        (equal (or_text node_name (or_text (getenv (codes "NEXUS_NODE")) file.node_name)) [])) [
          | inl nameless ↦ inl ((equal_iff _ []).0 nameless, rw (e, nameless) refl)
          | inr named ↦ inr (
            with_client_id
                (with_secrets getenv (with_node_name getenv node_name (apply_defaults file))),
            rw (e, named) refl,
            with_client_id-IsLoaded getenv node_name file (λ n. cc (named, (equal_iff _ []).1 n)),
          )
        ]
