-- ===== src/Relay/Listening.antt =====
-- relay.go: buildTLSConfig and the listener of Start. tls.LoadX509KeyPair, os.ReadFile and the two calls of
-- Listen are parameters.
use nexus_stun.Common.{
  ℕ, ◌≡◌, ◌≢◌, ◌⊎◌, refl, subst, inl, inr, Bool, true, false, ◌||◌, Option, none, some, [],
  if◌then◌else◌, Bytes, equal, equal_iff, Outcome, ok, err, panic, out_of_fuel, Bool-cases,
  Option-cases,
}
use nexus_stun.Common.Dict.{ne→equal}
use nexus_stun.Config.{RelayConf, TlsConf}

pub data TlsError : Type 0 where
  not_configured no_key_pair no_ca : TlsError

pub data ListenError : Type 0 where
  cannot_listen : ListenError

-- tls.VersionTLS13
abbrev pub version_tls13 : ℕ
version_tls13 = 0x0304

-- tls.NoClientCert, the zero value, and tls.RequireAndVerifyClientCert
pub data ClientAuth : Type 0 where
  no_client_cert require_and_verify_client_cert : ClientAuth

-- The certificate, the lowest version, the authorities for the clients' certificates, if any, and whether
-- a client must have one.
pub record TlsSettings (C : Type 0) : Type 0 where
  pub certificate : C
  pub min_version : ℕ
  pub client_cas : Option Bytes
  pub client_auth : ClientAuth

pub data Listener (C : Type 0) : Type 0 where
  plain : Bytes → Listener C
  secured : Bytes → TlsSettings C → Listener C

or_false : (a b : Bool) → (a || b) ≡ false → (a ≡ false) × (b ≡ false)
or_false true b h = absurd (cc h)
or_false false b h = (refl, h)

equal→ne : (a : Bytes) → equal a [] ≡ false → a ≢ []
equal→ne a h e = cc (h, (equal_iff a []).1 e)

module _ {C : Type 0} (load_key_pair : Bytes → Bytes → Option C)
    (read_file : Bytes → Option Bytes) where
  -- with the loaded certificate, and what was read of the authorities' file
  abbrev pub with_ca : C → Option Bytes → Outcome TlsError (TlsSettings C)
  with_ca certificate none = err no_ca
  with_ca certificate (some pem) = ok (record {
    certificate = certificate;
    min_version = version_tls13;
    client_cas = some pem;
    client_auth = require_and_verify_client_cert;
  })

  abbrev pub with_certificate : Bytes → Option C → Outcome TlsError (TlsSettings C)
  with_certificate ca_file none = err no_key_pair
  with_certificate ca_file (some certificate) =
      if equal ca_file []
      then ok (record {
        certificate = certificate;
        min_version = version_tls13;
        client_cas = none;
        client_auth = no_client_cert;
      })
      else with_ca certificate (read_file ca_file)

  unfoldable pub build_tls_config : TlsConf → Outcome TlsError (TlsSettings C)
  build_tls_config tls =
      if equal tls.cert_file [] || equal tls.key_file []
      then err not_configured
      else with_certificate tls.ca_file (load_key_pair tls.cert_file tls.key_file)

  -- Whatever the error is, Start takes plain TCP instead.
  unfoldable pub listener_of : Bytes → Outcome TlsError (TlsSettings C) → Listener C
  listener_of addr (ok settings) = secured addr settings
  listener_of addr (err e) = plain addr
  listener_of addr panic = plain addr
  listener_of addr out_of_fuel = plain addr

  unfoldable pub start : (Listener C → Bool) → RelayConf → Outcome ListenError (Listener C)
  unfolding listener_of
  start works relay =
      let listener = listener_of relay.listen_addr (build_tls_config relay.tls) in
      if works listener then ok listener else err cannot_listen

  -- what a listener must be, by the configuration
  abbrev pub IsDemanded : RelayConf → Listener C → Type 0
  IsDemanded relay (plain addr) =
      (equal relay.tls.cert_file [] || equal relay.tls.key_file [] ≡ true)
      ⊎ (load_key_pair relay.tls.cert_file relay.tls.key_file ≡ none)
      ⊎ ((relay.tls.ca_file ≢ []) × (read_file relay.tls.ca_file ≡ none))
  IsDemanded relay (secured addr settings) =
      (addr ≡ relay.listen_addr)
      × (relay.tls.cert_file ≢ [])
      × (relay.tls.key_file ≢ [])
      × (load_key_pair relay.tls.cert_file relay.tls.key_file ≡ some settings.certificate)
      × (settings.min_version ≡ version_tls13)
      × (((relay.tls.ca_file ≡ [])
            × (settings.client_cas ≡ none)
            × (settings.client_auth ≡ no_client_cert))
          ⊎ ((pem : Bytes) × (read_file relay.tls.ca_file ≡ some pem)
              × (settings.client_cas ≡ some pem)
              × (settings.client_auth ≡ require_and_verify_client_cert)))

  with_certificate-IsDemanded :
      (relay : RelayConf) (o : Option C)
      → relay.tls.cert_file ≢ []
      → relay.tls.key_file ≢ []
      → load_key_pair relay.tls.cert_file relay.tls.key_file ≡ o
      → IsDemanded relay (listener_of relay.listen_addr (with_certificate relay.tls.ca_file o))
  unfolding listener_of
  with_certificate-IsDemanded relay none c k e = inr (inl e)
  with_certificate-IsDemanded relay (some certificate) c k e =
      elim (Bool-cases (equal relay.tls.ca_file [])) [
        | inl y ↦ rw y (refl, c, k, e, refl, inl ((equal_iff relay.tls.ca_file []).0 y, refl, refl))
        | inr n ↦ elim (Option-cases (read_file relay.tls.ca_file)) [
          | inl unread ↦ rw (n, unread) (inr (inr (equal→ne relay.tls.ca_file n, unread)))
          | inr (pem, read) ↦ rw (n, read) (refl, c, k, e, refl, inr (pem, read, refl, refl))
        ]
      ]

  listener_of-IsDemanded :
      (relay : RelayConf)
      → IsDemanded relay (listener_of relay.listen_addr (build_tls_config relay.tls))
  unfolding build_tls_config listener_of
  listener_of-IsDemanded relay =
      elim (Bool-cases (equal relay.tls.cert_file [] || equal relay.tls.key_file [])) [
        | inl y ↦ rw y (inl y)
        | inr n ↦ rw n (
            let (c, k) = or_false (equal relay.tls.cert_file []) (equal relay.tls.key_file []) n in
            with_certificate-IsDemanded relay (load_key_pair relay.tls.cert_file relay.tls.key_file)
              (equal→ne relay.tls.cert_file c) (equal→ne relay.tls.key_file k) refl)
      ]

  -- A relay server that starts listens with TLS only where a certificate and a key are configured and load, and then
  -- with no version below 1.3; where a file of authorities is configured, with these and with a certificate
  -- demanded of each client, and else with none demanded; it listens without TLS only
  -- where one of these fails: nothing is configured, the pair does not load, or that file cannot be read.
  pub start-IsDemanded :
      (works : Listener C → Bool) (relay : RelayConf) (l : Listener C)
      → start works relay ≡ ok l
      → IsDemanded relay l × (works l ≡ true)
  unfolding start
  start-IsDemanded works relay l e =
      let listener = listener_of relay.listen_addr (build_tls_config relay.tls) in
      elim (Bool-cases (works listener)) [
        | inl y ↦
            let same : ok listener ≡ ok l = rw y at e in
            let at_l : listener ≡ l = cc same in
            subst (λ x. IsDemanded relay x × (works x ≡ true)) at_l
              (listener_of-IsDemanded relay, y)
        | inr n ↦ absurd (cc (rw n at e))
      ]

  -- A relay server whose configuration asks for clients certified by the authorities of a file listens
  -- without TLS, and so lets in any client, where that file cannot be read, although its own certificate loads.
  pub start_without_ca :
      (works : Listener C → Bool) (relay : RelayConf) (certificate : C)
      → relay.tls.cert_file ≢ []
      → relay.tls.key_file ≢ []
      → relay.tls.ca_file ≢ []
      → load_key_pair relay.tls.cert_file relay.tls.key_file ≡ some certificate
      → read_file relay.tls.ca_file ≡ none
      → works (plain relay.listen_addr) ≡ true
      → start works relay ≡ ok (plain relay.listen_addr)
  unfolding start build_tls_config listener_of
  start_without_ca works relay certificate c k a loads unread w =
      rw
        (
          ne→equal relay.tls.cert_file [] c,
          ne→equal relay.tls.key_file [] k,
          loads,
          ne→equal relay.tls.ca_file [] a,
          unread,
          w,
        )
        refl
