-- ===== src/WireGuard/Keys.antt =====
-- wireguard.go: loadOrGenerateKeys and GenerateKeys. The file system with the source of randomness is a
-- state `S` and a record of what the code calls; Curve25519 is a parameter.
pub mod Loading
use nexus_stun.Common.{
  ℕ, Bool, true, false, Option, none, some, List, [], ◌∷◌, ◌++◌, ◌==◌, if◌then◌else◌, length, Bytes,
  codes, Outcome, ok, err, panic, out_of_fuel, ◌>>=◌,
}
use nexus_stun.Crypto.{clamp}
use nexus_stun.Config.{Config}
use nexus_stun.WireGuard.{WireGuardManager, Base64}

-- os.ReadFile gives nothing where it fails; the others say whether they work.
pub record Os (S : Type 0) : Type 0 where
  pub read_random : S → Option Bytes × S
  pub read_file : S → Bytes → Option Bytes
  pub mkdir_all : S → Bytes → Bool × S
  pub write_file : S → Bytes → Bytes → Bool × S

pub data KeyError : Type 0 where
  invalid_private_key no_randomness no_key_dir unwritten_private_key unwritten_public_key : KeyError
  unreadable_generated_key invalid_generated_key : KeyError

-- the decoded key, if it is one
abbrev pub key_or : KeyError → Option Bytes → Outcome KeyError Bytes
key_or e none = err e
key_or e (some key) = if length key == 32 then ok key else err e

module _ {S : Type 0} (os : Os S) (base64 : Base64) (base_mult : Bytes → Bytes)
    (join_path : Bytes → Bytes → Bytes) where
  -- the two files of a key pair, behind the directory
  unfoldable pub write_keys : Bytes → Bytes → S → Outcome KeyError (Unit {0}) × S
  write_keys out_dir private_key s =
      let (written, s1) =
        os.write_file s (join_path out_dir (codes "private.key")) (base64.encode private_key) in
      if written
      then (let (published, s2) =
            os.write_file s1 (join_path out_dir (codes "public.key"))
              (base64.encode (base_mult private_key)) in
          (if published then ok tt else err unwritten_public_key, s2))
      else (err unwritten_private_key, s1)

  unfoldable pub generate_with : Bytes → Option Bytes → S → Outcome KeyError (Unit {0}) × S
  unfolding write_keys
  generate_with out_dir none s = (err no_randomness, s)
  generate_with out_dir (some random) s =
      let (made, s1) = os.mkdir_all s out_dir in
      if made then write_keys out_dir (clamp random) s1 else (err no_key_dir, s1)

  unfoldable pub generate_keys : Bytes → S → Outcome KeyError (Unit {0}) × S
  unfolding generate_with
  generate_keys out_dir s = let (random, s1) = os.read_random s in generate_with out_dir random s1

  -- The manager's private key from a file, with the public key that belongs to it.
  unfoldable pub key_pair : KeyError → Bytes → Outcome KeyError (Bytes × Bytes)
  key_pair e content = do key ← key_or e (base64.decode content); ok (key, base_mult key)

  -- the generated key, from the file
  unfoldable pub load_generated :
      Bytes → Outcome KeyError (Unit {0}) → S → Outcome KeyError (Bytes × Bytes)
  unfolding key_pair
  load_generated priv_path (ok u) s = elim (os.read_file s priv_path) [
    | none ↦ err unreadable_generated_key
    | some content ↦ key_pair invalid_generated_key content
  ]
  load_generated priv_path (err e) s = err e
  load_generated priv_path panic s = panic
  load_generated priv_path out_of_fuel s = out_of_fuel

  unfoldable pub load_or_generate :
      Bytes → Bytes → Option Bytes → S → Outcome KeyError (Bytes × Bytes) × S
  unfolding key_pair load_generated
  load_or_generate key_dir priv_path (some content) s = (key_pair invalid_private_key content, s)
  load_or_generate key_dir priv_path none s =
      let (generated, s1) = generate_keys key_dir s in (load_generated priv_path generated s1, s1)

  unfoldable pub load_or_generate_keys : Bytes → Bytes → S → Outcome KeyError (Bytes × Bytes) × S
  unfolding load_or_generate
  load_or_generate_keys key_dir node_name s =
      let priv_path = join_path key_dir (node_name ++ codes ".key") in
      load_or_generate key_dir priv_path (os.read_file s priv_path) s

  -- what NewWireGuardManager makes of the keys
  abbrev pub with_keys :
      {D : Type 0}
      → Config
      → Outcome KeyError (Bytes × Bytes)
      → Outcome KeyError (WireGuardManager D)
  with_keys cfg keys = do
    (private_key, public_key) ← keys
    ok (record {
      cfg = cfg;
      tun = none;
      private_key = private_key;
      public_key = public_key;
      peers = [];
    })

  unfoldable pub new_wire_guard_manager :
      {D : Type 0} → Config → S → Outcome KeyError (WireGuardManager D) × S
  unfolding load_or_generate_keys
  new_wire_guard_manager cfg s =
      let (keys, s') = load_or_generate_keys cfg.wire_guard.key_dir cfg.node_name s in
      (with_keys cfg keys, s')
