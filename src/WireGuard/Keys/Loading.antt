-- ===== src/WireGuard/Keys/Loading.antt =====
-- wireguard.go: which keys a node comes up with.
use nexus_stun.Common.{
  ◌≡◌, ◌≢◌, refl, ◌∙◌, inl, inr, Bool, true, false, Option, none, some, ◌++◌, ==_iff, if◌then◌else◌,
  length, Bytes, codes, Outcome, ok, err, panic, out_of_fuel, Bool-cases, Returns,
}
use nexus_stun.Crypto.{clamp}
use nexus_stun.WireGuard.{Base64}
use nexus_stun.WireGuard.Keys.{
  Os, KeyError, unwritten_public_key, unreadable_generated_key, write_keys, generate_with,
  generate_keys, load_generated, load_or_generate, load_or_generate_keys,
}

-- What a file system does: a file reads as it was written, and what is done elsewhere does not change it.
pub record IsFileSystem {S : Type 0} (os : Os S) : Type 0 where
  pub read_random_keeps :
      (s : S) (q : Bytes) → os.read_file (os.read_random s).1 q ≡ os.read_file s q
  pub mkdir_keeps : (s : S) (d q : Bytes) → os.read_file (os.mkdir_all s d).1 q ≡ os.read_file s q
  pub write_keeps :
      (s : S) (p c q : Bytes) → p ≢ q → os.read_file (os.write_file s p c).1 q ≡ os.read_file s q
  pub write_reads :
      (s : S) (p c : Bytes)
      → (os.write_file s p c).0 ≡ true
      → os.read_file (os.write_file s p c).1 p ≡ some c

module _ {S : Type 0} (os : Os S) (base64 : Base64) (base_mult : Bytes → Bytes)
    (join_path : Bytes → Bytes → Bytes) where
  -- An existing key is loaded with its public key, and nothing is written.
  pub load_or_generate_keys_existing :
      (key_dir node_name key : Bytes) (s : S)
      → base64.decode (base64.encode key) ≡ some key
      → length key ≡ 32
      → os.read_file s (join_path key_dir (node_name ++ codes ".key")) ≡ some (base64.encode key)
      → load_or_generate_keys os base64 base_mult join_path key_dir node_name s
        ≡ (ok (key, base_mult key), s)
  unfolding load_or_generate_keys
  load_or_generate_keys_existing key_dir node_name key s d l e =
      rw (e, load_or_generate) (rw (d, (==_iff (length key) 32).1 l) refl)

  write_keys-read_file :
      (out_dir key q : Bytes) (s : S)
      → IsFileSystem os
      → join_path out_dir (codes "private.key") ≢ q
      → join_path out_dir (codes "public.key") ≢ q
      → os.read_file (write_keys os base64 base_mult join_path out_dir key s).1 q ≡ os.read_file s q
  unfolding write_keys
  write_keys-read_file out_dir key q s fs no_private no_public =
      elim (Bool-cases
        (os.write_file s (join_path out_dir (codes "private.key")) (base64.encode key)).0) [
          | inl e ↦ rw e (fs.write_keeps _ _ _ q no_public ∙ fs.write_keeps s _ _ q no_private)
          | inr e ↦ rw e (fs.write_keeps s _ _ q no_private)
        ]

  generate_with-read_file :
      (out_dir q : Bytes) (random : Option Bytes) (s : S)
      → IsFileSystem os
      → join_path out_dir (codes "private.key") ≢ q
      → join_path out_dir (codes "public.key") ≢ q
      → os.read_file (generate_with os base64 base_mult join_path out_dir random s).1 q
        ≡ os.read_file s q
  unfolding generate_with
  generate_with-read_file out_dir q none s fs no_private no_public = refl
  generate_with-read_file out_dir q (some random) s fs no_private no_public =
      elim (Bool-cases (os.mkdir_all s out_dir).0) [
        | inl e ↦ rw e (
            write_keys-read_file out_dir (clamp random) q (os.mkdir_all s out_dir).1 fs no_private
              no_public
            ∙ fs.mkdir_keeps s out_dir q)
        | inr e ↦ rw e (fs.mkdir_keeps s out_dir q)
      ]

  write_keys-Returns :
      (out_dir key : Bytes) (s : S)
      → Returns (write_keys os base64 base_mult join_path out_dir key s).0
  unfolding write_keys
  write_keys-Returns out_dir key s =
      elim (Bool-cases
        (os.write_file s (join_path out_dir (codes "private.key")) (base64.encode key)).0) [
          | inl e ↦ rw e (
              published-Returns
                (os.write_file _ (join_path out_dir (codes "public.key"))
                  (base64.encode (base_mult key))).0)
          | inr e ↦ rw e tt
        ]
    where
      published-Returns :
          (b : Bool)
          → Returns
              (if◌then◌else◌ {A = Outcome KeyError (Unit {0})} b (ok tt) (err unwritten_public_key))
      published-Returns true = tt
      published-Returns false = tt

  generate_with-Returns :
      (out_dir : Bytes) (random : Option Bytes) (s : S)
      → Returns (generate_with os base64 base_mult join_path out_dir random s).0
  unfolding generate_with
  generate_with-Returns out_dir none s = tt
  generate_with-Returns out_dir (some random) s = elim (Bool-cases (os.mkdir_all s out_dir).0) [
    | inl e ↦ rw e (write_keys-Returns out_dir (clamp random) (os.mkdir_all s out_dir).1)
    | inr e ↦ rw e tt
  ]

  load_generated_missing :
      (priv_path : Bytes) (m : Outcome KeyError (Unit {0})) (s : S)
      → Returns m
      → os.read_file s priv_path ≡ none
      → (e : KeyError) × (load_generated os base64 base_mult join_path priv_path m s ≡ err e)
  unfolding load_generated
  load_generated_missing priv_path (ok u) s r gone =
      (unreadable_generated_key, rw (gone, load_generated) refl)
  load_generated_missing priv_path (err e) s r gone = (e, refl)
  load_generated_missing priv_path panic s r gone = absurd r
  load_generated_missing priv_path out_of_fuel s r gone = absurd r

  load_generated_reads :
      (priv_path key : Bytes) (s : S)
      → os.read_file s priv_path ≡ some (base64.encode key)
      → base64.decode (base64.encode key) ≡ some key
      → length key ≡ 32
      → load_generated os base64 base_mult join_path priv_path (ok tt) s ≡ ok (key, base_mult key)
  unfolding load_generated
  load_generated_reads priv_path key s e d l =
      rw (e, load_generated) (rw (d, (==_iff (length key) 32).1 l) refl)

  -- A node that has no key file does not come up, unless its name makes the path of its key that of one
  -- of the two generated files: GenerateKeys writes private.key and public.key, and what is read after
  -- it is <node>.key. Of the file system it is used that making a directory, reading randomness and writing
  -- a file leave the other files as they are.
  pub load_or_generate_keys_fresh :
      (key_dir node_name : Bytes) (s : S)
      → IsFileSystem os
      → join_path key_dir (codes "private.key") ≢ join_path key_dir (node_name ++ codes ".key")
      → join_path key_dir (codes "public.key") ≢ join_path key_dir (node_name ++ codes ".key")
      → os.read_file s (join_path key_dir (node_name ++ codes ".key")) ≡ none
      → (e : KeyError) × ((load_or_generate_keys os base64 base_mult join_path key_dir node_name
            s).0
          ≡ err e)
  unfolding load_or_generate_keys load_or_generate generate_keys
  load_or_generate_keys_fresh key_dir node_name s fs no_private no_public gone =
      let path = join_path key_dir (node_name ++ codes ".key") in
      let (random, s1) = os.read_random s in
      rw (gone, load_or_generate)
        (load_generated_missing path
          (generate_with os base64 base_mult join_path key_dir random s1).0
          (generate_with os base64 base_mult join_path key_dir random s1).1
          (generate_with-Returns key_dir random s1)
          (generate_with-read_file key_dir path random s1 fs no_private no_public
            ∙ fs.read_random_keeps s path
            ∙ gone))

  -- Where the path of the node's key is that of the generated private key (a node named private), every
  -- call works and the random bytes are 32, a node with no key comes up with the clamped random key.
  pub load_or_generate_keys_private :
      (key_dir node_name random : Bytes) (s : S)
      → IsFileSystem os
      → join_path key_dir (node_name ++ codes ".key") ≡ join_path key_dir (codes "private.key")
      → join_path key_dir (codes "public.key") ≢ join_path key_dir (codes "private.key")
      → base64.decode (base64.encode (clamp random)) ≡ some (clamp random)
      → length (clamp random) ≡ 32
      → os.read_file s (join_path key_dir (codes "private.key")) ≡ none
      → (os.read_random s).0 ≡ some random
      → ((t : S) → (os.mkdir_all t key_dir).0 ≡ true)
      → ((t : S) (p c : Bytes) → (os.write_file t p c).0 ≡ true)
      → (load_or_generate_keys os base64 base_mult join_path key_dir node_name s).0
        ≡ ok (clamp random, base_mult (clamp random))
  unfolding load_or_generate_keys
  load_or_generate_keys_private key_dir node_name random s fs same apart d l gone drawn makes
        writes =
      let s2 = (os.mkdir_all (os.read_random s).1 key_dir).1 in
      let s3 =
        (os.write_file s2 (join_path key_dir (codes "private.key"))
          (base64.encode (clamp random))).1 in
      let s4 =
        (os.write_file s3 (join_path key_dir (codes "public.key"))
          (base64.encode (base_mult (clamp random)))).1 in
      let reads : os.read_file s4 (join_path key_dir (codes "private.key"))
          ≡ some (base64.encode (clamp random)) =
        fs.write_keeps s3 _ _ _ apart ∙ fs.write_reads s2 _ _ (writes s2 _ _) in
      let generated : generate_keys os base64 base_mult join_path key_dir s ≡ (ok tt, s4) =
        unfold generate_keys in
        rw (drawn, generate_with)
          (unfold write_keys in
            rw
              (
                makes (os.read_random s).1,
                writes s2 (join_path key_dir (codes "private.key")) (base64.encode (clamp random)),
                writes s3 (join_path key_dir (codes "public.key"))
                    (base64.encode (base_mult (clamp random))),
              )
              refl) in
      rw (same, gone, load_or_generate)
        (rw (generated, same)
          (load_generated_reads (join_path key_dir (codes "private.key")) (clamp random) s4 reads d
            l))
