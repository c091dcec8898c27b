-- ===== src/Main.antt =====
-- main.go: the commands. cobra parses the flags. Run, Teardown, ShowStatus, ListPeers and RunDNS, which the
-- repository calls and does not define, and what LoadConfig and GenerateKeys call, are parameters.
use nexus_stun.Common.{
  ℕ, Bool, Option, if◌then◌else◌, Bytes, codes, Outcome, ok, err, panic, out_of_fuel,
}
use nexus_stun.Config.{Config}
use nexus_stun.Config.Loading.{ConfigError, load_config}
use nexus_stun.Dashboard.{Dashboard}
use nexus_stun.Dashboard.Serving.{ServerEnd, run_dashboard}
use nexus_stun.WireGuard.{Base64}
use nexus_stun.WireGuard.Keys.{Os, KeyError, generate_keys}

-- A command with its flags.
pub data Command : Type 0 where
  up status peers dashboard dns : Bytes → Bytes → Command
  down : Bytes → Command
  gen_keys : Bytes → Command

abbrev pub default_config_file : Bytes
default_config_file = codes "/etc/nexus-vpn/config.yaml"

pub data CommandError : Type 0 where
  loading_config : ConfigError → CommandError
  generating_keys : KeyError → CommandError
  failed : CommandError

-- What the commands call: each says whether it returns no error.
pub record Programs (S : Type 0) : Type 0 where
  pub run : Config → S → Bool × S
  pub show_status : Config → S → Bool × S
  pub list_peers : Config → S → Bool × S
  pub run_dns : Config → S → Bool × S
  pub teardown : Bytes → S → Bool × S

abbrev pub key_result : Outcome KeyError (Unit {0}) → Outcome CommandError (Unit {0})
key_result (ok u) = ok u
key_result (err e) = err (generating_keys e)
key_result panic = panic
key_result out_of_fuel = out_of_fuel

-- what main leaves the process with
abbrev pub exit_code : Outcome CommandError (Unit {0}) → ℕ
exit_code (ok u) = 0
exit_code (err e) = 1
exit_code panic = 2
exit_code out_of_fuel = 2

module _ {S : Type 0} (os : Os S) (programs : Programs S) (base64 : Base64)
    (base_mult : Bytes → Bytes) (join_path : Bytes → Bytes → Bytes)
    (expand_env getenv : Bytes → Bytes) (unmarshal : Bytes → Option Config)
    (listen_and_serve : Dashboard → Bytes → Option (Bytes × Bytes) → S → ServerEnd × S) where
  abbrev pub finished : Bool × S → Outcome CommandError (Unit {0}) × S
  finished (works, s) = (if works then ok tt else err failed, s)

  -- behind LoadConfig
  unfoldable pub with_config :
      (Config → S → Bool × S) → Outcome ConfigError Config → S → Outcome CommandError (Unit {0}) × S
  with_config action (ok cfg) s = finished (action cfg s)
  with_config action (err e) s = (err (loading_config e), s)
  with_config action panic s = (panic, s)
  with_config action out_of_fuel s = (out_of_fuel, s)

  -- LoadConfig on the file at the path
  abbrev pub load : Bytes → Bytes → S → Outcome ConfigError Config
  load config_file node_name s =
      load_config expand_env unmarshal getenv (os.read_file s config_file) node_name

  unfoldable pub run_command : Command → S → Outcome CommandError (Unit {0}) × S
  unfolding with_config generate_keys run_dashboard
  run_command (up config_file node_name) s =
      with_config programs.run (load config_file node_name s) s
  run_command (status config_file node_name) s =
      with_config programs.show_status (load config_file node_name s) s
  run_command (peers config_file node_name) s =
      with_config programs.list_peers (load config_file node_name s) s
  run_command (dashboard config_file node_name) s =
      with_config (run_dashboard listen_and_serve) (load config_file node_name s) s
  run_command (dns config_file node_name) s =
      with_config programs.run_dns (load config_file node_name s) s
  run_command (down node_name) s = finished (programs.teardown node_name s)
  run_command (gen_keys out_dir) s =
      let (result, s') = generate_keys os base64 base_mult join_path out_dir s in
      (key_result result, s')
