-- ===== src/WireGuard/Settings.antt =====
-- wireguard.go: the text that the device is configured with.
pub mod Reading
use nexus_stun.Common.{ℕ, List, [], ◌∷◌, ◌++◌, Bytes, codes}
use nexus_stun.Common.Text.{decimal}

-- key=value and a line feed
abbrev pub setting : Bytes → Bytes → Bytes
setting key value = key ++ (b'=' ∷ (value ++ b'\n' ∷ []))

abbrev pub allowed_settings : List Bytes → Bytes
allowed_settings [] = []
allowed_settings (ip ∷ ips) = setting (codes "allowed_ip") ip ++ allowed_settings ips

-- the endpoint, else the fallback, else none
abbrev pub endpoint_setting : Bytes → Bytes → Bytes
endpoint_setting (b ∷ endpoint) fallback = setting (codes "endpoint") (b ∷ endpoint)
endpoint_setting [] (b ∷ fallback) = setting (codes "endpoint") (b ∷ fallback)
endpoint_setting [] [] = []

abbrev pub peer_config : Bytes → List Bytes → Bytes → Bytes → Bytes
peer_config public_key allowed_ips endpoint fallback =
    setting (codes "public_key") public_key
    ++ (endpoint_setting endpoint fallback
        ++ (allowed_settings allowed_ips
            ++ setting (codes "persistent_keepalive_interval") (codes "25")))

abbrev pub endpoint_config : Bytes → Bytes → Bytes
endpoint_config public_key endpoint =
    setting (codes "public_key") public_key
    ++ (setting (codes "endpoint") endpoint ++ setting (codes "replace_endpoints") (codes "true"))

abbrev pub device_config : Bytes → ℕ → Bytes
device_config private_key listen_port =
    setting (codes "private_key") private_key ++ setting (codes "listen_port") (decimal listen_port)
