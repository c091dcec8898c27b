-- ===== src/Tests/Main.antt =====
-- A run of main.go at a concrete value.
use nexus_stun.Common.{◌≡◌, refl, true, none, some, [], Bytes, codes, err}
use nexus_stun.Config.Loading.{unreadable, load_config}
use nexus_stun.Dashboard.Serving.{server_closed}
use nexus_stun.Main.{up, loading_config, Programs, run_command, default_config_file, with_config}
use nexus_stun.WireGuard.{Base64}
use nexus_stun.WireGuard.Keys.{Os}

abbrev State : Type 0
State = Bytes

-- a system without files
abbrev fileless : Os State
fileless = record {
  read_random = λ s. (none, s);
  read_file = λ s p. none;
  mkdir_all = λ s d. (true, s);
  write_file = λ s p c. (true, s);
}

abbrev programs : Programs State
programs = record {
  run = λ c s. (true, codes "up");
  show_status = λ c s. (true, s);
  list_peers = λ c s. (true, s);
  run_dns = λ c s. (true, s);
  teardown = λ n s. (true, s);
}

abbrev plain : Base64
plain = record { encode = λ b. b; decode = λ b. some b }

-- No configuration file: nothing runs.
up_without_config :
    run_command fileless programs plain
      (λ k. k)
      (λ d f. f)
      (λ s. s)
      (λ s. s)
      (λ s. none)
      (λ d a t s. (server_closed, s))
      (up default_config_file [])
      (codes "down")
    ≡ (err (loading_config unreadable), codes "down")
unfolding load_config run_command with_config
up_without_config = refl
