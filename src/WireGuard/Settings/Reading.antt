-- ===== src/WireGuard/Settings/Reading.antt =====
-- wireguard.go: the text of AddPeer and UpdatePeerEndpoint, as a reader of lines key=value takes it.
use nexus_stun.Common.{
  ℕ, ◌≡◌, ◌≢◌, refl, sym, ap, ◌∙◌, inl, inr, Bool, true, false, List, [], ◌∷◌, ◌++◌, ◌==◌, ==_iff,
  if◌then◌else◌, Bytes, codes, All, All-append, append_assoc, append-nil, Bool-cases, arith,
}
use nexus_stun.Common.Text.{Lacks, split, split-append_sep, split-ne-nil}
use nexus_stun.WireGuard.Settings.{setting, allowed_settings, endpoint_setting, peer_config}

-- a line in two, at its first equals sign
abbrev pub cut : Bytes → Bytes × Bytes
cut [] = ([], [])
cut (c ∷ line) = let (key, value) = cut line in if c == b'=' then ([], line) else (c ∷ key, value)

-- the lines, without what follows the last line feed
abbrev pub cut_lines : List Bytes → List (Bytes × Bytes)
cut_lines [] = []
cut_lines (last ∷ []) = []
cut_lines (line ∷ next ∷ lines) = cut line ∷ cut_lines (next ∷ lines)

unfoldable pub read_settings : Bytes → List (Bytes × Bytes)
read_settings text = cut_lines (split b'\n' text)

-- what AddPeer means to set
abbrev pub endpoint_pair : Bytes → Bytes → List (Bytes × Bytes)
endpoint_pair (b ∷ endpoint) fallback = (codes "endpoint", b ∷ endpoint) ∷ []
endpoint_pair [] (b ∷ fallback) = (codes "endpoint", b ∷ fallback) ∷ []
endpoint_pair [] [] = []

abbrev pub allowed_pairs : List Bytes → List (Bytes × Bytes)
allowed_pairs [] = []
allowed_pairs (ip ∷ ips) = (codes "allowed_ip", ip) ∷ allowed_pairs ips

abbrev pub peer_pairs : Bytes → List Bytes → Bytes → Bytes → List (Bytes × Bytes)
peer_pairs public_key allowed_ips endpoint fallback =
    (codes "public_key", public_key)
    ∷ (endpoint_pair endpoint fallback
        ++ (allowed_pairs allowed_ips ++ (codes "persistent_keepalive_interval", codes "25") ∷ []))

-- a test that a byte is in no place
abbrev is_free : ℕ → Bytes → Bool
is_free b [] = true
is_free b (c ∷ s) = if c == b then false else is_free b s

pub is_free-Lacks : (b : ℕ) (s : Bytes) → is_free b s ≡ true → Lacks b s
is_free-Lacks b [] e = tt
is_free-Lacks b (c ∷ s) e = elim (Bool-cases (c == b)) [
  | inl y ↦ absurd (cc (rw y at e))
  | inr n ↦ (λ q. absurd (cc (n, (==_iff c b).1 q)), is_free-Lacks b s (rw n at e))
]

cut-append : (key value : Bytes) → Lacks b'=' key → cut (key ++ (b'=' ∷ value)) ≡ (key, value)
cut-append [] value h = refl
cut-append (c ∷ key) value (hc, h) = elim (Bool-cases (c == b'=')) [
  | inl y ↦ absurd (hc ((==_iff c b'=').0 y))
  | inr n ↦ rw (n, cut-append key value h) refl
]

cut_lines-cons :
    (line : Bytes) (lines : List Bytes)
    → lines ≢ []
    → cut_lines (line ∷ lines) ≡ cut line ∷ cut_lines lines
cut_lines-cons line [] h = absurd (h refl)
cut_lines-cons line (next ∷ lines) h = refl

read_settings-setting :
    (key value rest : Bytes)
    → is_free b'=' key ≡ true
    → is_free b'\n' key ≡ true
    → Lacks b'\n' value
    → read_settings (setting key value ++ rest) ≡ (key, value) ∷ read_settings rest
unfolding read_settings
read_settings-setting key value rest no_equals no_feed h =
    let line = key ++ (b'=' ∷ value) in
    let feed_free : Lacks b'\n' line =
      All-append (λ c. c ≢ b'\n') key (b'=' ∷ value) (is_free-Lacks b'\n' key no_feed)
        (λ e. absurd (omega (arith, e)), h) in
    let text_lem : setting key value ++ rest ≡ line ++ (b'\n' ∷ rest) =
      append_assoc key (b'=' ∷ (value ++ b'\n' ∷ [])) rest
      ∙ ap (λ t. key ++ (b'=' ∷ t)) (append_assoc value (b'\n' ∷ []) rest)
      ∙ sym (append_assoc key (b'=' ∷ value) (b'\n' ∷ rest)) in
    ap read_settings text_lem
    ∙ ap cut_lines (split-append_sep b'\n' line rest feed_free)
    ∙ cut_lines-cons line (split b'\n' rest) (split-ne-nil b'\n' rest)
    ∙ ap (λ p. p ∷ cut_lines (split b'\n' rest))
        (cut-append key value (is_free-Lacks b'=' key no_equals))

read_settings-last :
    (key value : Bytes)
    → is_free b'=' key ≡ true
    → is_free b'\n' key ≡ true
    → Lacks b'\n' value
    → read_settings (setting key value) ≡ (key, value) ∷ []
unfolding split
read_settings-last key value no_equals no_feed h =
    ap read_settings (sym (append-nil (setting key value)))
    ∙ read_settings-setting key value [] no_equals no_feed h
    ∙ unfold read_settings in refl

read_settings-endpoint_setting :
    (endpoint fallback rest : Bytes)
    → Lacks b'\n' endpoint
    → Lacks b'\n' fallback
    → read_settings (endpoint_setting endpoint fallback ++ rest)
      ≡ endpoint_pair endpoint fallback ++ read_settings rest
read_settings-endpoint_setting (b ∷ endpoint) fallback rest h k =
    read_settings-setting (codes "endpoint") (b ∷ endpoint) rest refl refl h
read_settings-endpoint_setting [] (b ∷ fallback) rest h k =
    read_settings-setting (codes "endpoint") (b ∷ fallback) rest refl refl k
read_settings-endpoint_setting [] [] rest h k = refl

read_settings-allowed_settings :
    (ips : List Bytes) (rest : Bytes)
    → All (Lacks b'\n') ips
    → read_settings (allowed_settings ips ++ rest) ≡ allowed_pairs ips ++ read_settings rest
read_settings-allowed_settings [] rest h = refl
read_settings-allowed_settings (ip ∷ ips) rest (h, hs) =
    ap read_settings (append_assoc (setting (codes "allowed_ip") ip) (allowed_settings ips) rest)
    ∙ read_settings-setting (codes "allowed_ip") ip (allowed_settings ips ++ rest) refl refl h
    ∙ ap (λ ps. (codes "allowed_ip", ip) ∷ ps) (read_settings-allowed_settings ips rest hs)

-- The text with which AddPeer configures the device is read back, line by line as key and value, as what is
-- meant: the public key, the endpoint or else the fallback, each allowed address in order, and the
-- keepalive interval of 25, and nothing else, where none of the values holds a line feed.
pub read_settings-peer_config :
    (public_key : Bytes) (allowed_ips : List Bytes) (endpoint fallback : Bytes)
    → Lacks b'\n' public_key
    → All (Lacks b'\n') allowed_ips
    → Lacks b'\n' endpoint
    → Lacks b'\n' fallback
    → read_settings (peer_config public_key allowed_ips endpoint fallback)
      ≡ peer_pairs public_key allowed_ips endpoint fallback
read_settings-peer_config public_key allowed_ips endpoint fallback key_free ips_free endpoint_free
      fallback_free =
    let keepalive = setting (codes "persistent_keepalive_interval") (codes "25") in
    let ips = allowed_settings allowed_ips ++ keepalive in
    read_settings-setting (codes "public_key") public_key
      (endpoint_setting endpoint fallback ++ ips) refl refl key_free
    ∙ ap (λ ps. (codes "public_key", public_key) ∷ ps)
        (read_settings-endpoint_setting endpoint fallback ips endpoint_free fallback_free
          ∙ ap (◌++◌ (endpoint_pair endpoint fallback)) (
              read_settings-allowed_settings allowed_ips keepalive ips_free
              ∙ ap (◌++◌ (allowed_pairs allowed_ips)) (
                  read_settings-last (codes "persistent_keepalive_interval") (codes "25") refl refl
                    (is_free-Lacks b'\n' (codes "25") refl))))
