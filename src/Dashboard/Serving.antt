-- ===== src/Dashboard/Serving.antt =====
-- dashboard.go: Start, the routes, and RunDashboard. The HTTP server is a parameter: it runs until it ends.
use nexus_stun.Common.{
  Bool, true, false, ◌&&◌, not, Option, none, some, [], if◌then◌else◌, Bytes, codes, equal,
}
use nexus_stun.Config.{Config, TlsConf}
use nexus_stun.Dashboard.{Dashboard, new_dashboard}

pub data Route : Type 0 where
  index api_status api_peers api_topology websocket : Route

-- The mux of Start: "/" takes every other path. The configured password is asked for nowhere.
abbrev pub route : Bytes → Route
route path =
    if equal path (codes "/api/status")
    then api_status
    else if equal path (codes "/api/peers")
    then api_peers
    else if equal path (codes "/api/topology")
    then api_topology
    else if equal path (codes "/ws")
    then websocket
    else index

-- How the server ends: http.ErrServerClosed, or another error.
pub data ServerEnd : Type 0 where
  server_closed server_failed : ServerEnd

-- the files of ListenAndServeTLS, where both are configured
abbrev pub tls_files : TlsConf → Option (Bytes × Bytes)
tls_files tls =
    if not (equal tls.cert_file []) && not (equal tls.key_file [])
    then some (tls.cert_file, tls.key_file)
    else none

module _ {S : Type 0}
    (listen_and_serve : Dashboard → Bytes → Option (Bytes × Bytes) → S → ServerEnd × S) where
  -- whether it returns nil
  abbrev pub is_closed : ServerEnd → Bool
  is_closed server_closed = true
  is_closed server_failed = false

  unfoldable pub start : Dashboard → S → Bool × S
  start d s =
      let (end, s') =
        listen_and_serve d d.cfg.dashboard.listen_addr (tls_files d.cfg.dashboard.tls) s in
      (is_closed end, s')

  unfoldable pub run_dashboard : Config → S → Bool × S
  unfolding start new_dashboard
  run_dashboard cfg s = start (new_dashboard cfg) s
