-- ===== src/Protocol/Auth.antt =====
-- src/protocol.c: the packets that authenticate the client. `sha1` and `sha256` are OpenSSL's digests.
pub mod Hash
pub mod Packed
pub mod Switch
use trilogy.Prelude.{
  ℕ, ◌%◌, ltb, ◌==◌, ◌&&◌, bit_or, bit_xor, Bool, true, false, if◌then◌else◌, List, [], ◌∷◌, ◌++◌,
  length, replicate, take, Option, none, some, Run, fault, done, fail, ◌>>=◌, ◌>>◌,
  auth_plugin_error,
}
use trilogy.Builder.{
  Builder, max_packet_len, write_uint8, write_uint32, write_buffer, write_string, finalize,
}
use trilogy.Protocol.Types.{
  has, capabilities_connect_with_db, capabilities_plugin_auth, scramble_len,
}
use trilogy.Protocol.Commands.{capabilities_client}

-- "mysql_native_password", "caching_sha2_password", "mysql_clear_password" and "root"
abbrev pub native_password : List ℕ
native_password =
    109 ∷ 121 ∷ 115 ∷ 113 ∷ 108 ∷ 95 ∷ 110 ∷ 97 ∷ 116 ∷ 105 ∷ 118 ∷ 101 ∷ 95 ∷ 112 ∷ 97 ∷ 115 ∷ 115
    ∷ 119 ∷ 111 ∷ 114 ∷ 100 ∷ []

abbrev pub caching_sha2_password : List ℕ
caching_sha2_password =
    99 ∷ 97 ∷ 99 ∷ 104 ∷ 105 ∷ 110 ∷ 103 ∷ 95 ∷ 115 ∷ 104 ∷ 97 ∷ 50 ∷ 95 ∷ 112 ∷ 97 ∷ 115 ∷ 115
    ∷ 119 ∷ 111 ∷ 114 ∷ 100 ∷ []

abbrev pub clear_password : List ℕ
clear_password =
    109 ∷ 121 ∷ 115 ∷ 113 ∷ 108 ∷ 95 ∷ 99 ∷ 108 ∷ 101 ∷ 97 ∷ 114 ∷ 95 ∷ 112 ∷ 97 ∷ 115 ∷ 115 ∷ 119
    ∷ 111 ∷ 114 ∷ 100 ∷ []

abbrev pub root : List ℕ
root = 114 ∷ 111 ∷ 111 ∷ 116 ∷ []

-- `!strcmp(xs, ys)`
abbrev pub same_text : List ℕ → List ℕ → Bool
same_text [] [] = true
same_text [] (y ∷ ys) = false
same_text (x ∷ xs) [] = false
same_text (x ∷ xs) (y ∷ ys) = x == y && same_text xs ys

-- The loop of `^` over the bytes of the last digest; both are digests of one algorithm, and so of one length.
abbrev pub xor_bytes : List ℕ → List ℕ → List ℕ
xor_bytes [] ys = []
xor_bytes (x ∷ xs) [] = []
xor_bytes (x ∷ xs) (y ∷ ys) = bit_xor x y ∷ xor_bytes xs ys

-- A value that the code has set, or else memory that nothing was written to.
unfoldable pub known : {S A : Type 0} → Option A → Run S A
unfolding done
known none s = (fault, s)
known (some a) s = done a s

-- The first SCRAMBLE_LEN bytes of the array that the scramble was copied to.
unfoldable pub whole_scramble : List ℕ → Run Builder (List ℕ)
whole_scramble scramble =
    known (if ltb (length scramble) scramble_len then none else some (take scramble_len scramble))

-- The responses to the scramble: `sha1` or `sha256` is the digest.
unfoldable pub native_hash : (List ℕ → List ℕ) → List ℕ → List ℕ → List ℕ
native_hash sha1 scramble password =
    xor_bytes (sha1 (scramble ++ sha1 (sha1 password))) (sha1 password)

unfoldable pub sha2_hash : (List ℕ → List ℕ) → List ℕ → List ℕ → List ℕ
sha2_hash sha256 scramble password =
    xor_bytes (sha256 password) (sha256 (sha256 (sha256 password) ++ scramble))

-- `capabilities`
abbrev pub auth_capabilities : ℕ → Option (List ℕ) → ℕ
auth_capabilities flags none = bit_or flags capabilities_client
auth_capabilities flags (some name) =
    bit_or (bit_or flags capabilities_client) capabilities_connect_with_db

abbrev pub user_name : Option (List ℕ) → List ℕ
user_name none = root
user_name (some user) = user

unfoldable pub write_if : Bool → Run Builder (Unit {0}) → Run Builder (Unit {0})
write_if b m = if b then m else done tt

module _ (grants : ℕ → Bool) where
  unfoldable pub write_database : Option (List ℕ) → Run Builder (Unit {0})
  write_database none = done tt
  write_database (some name) = write_string grants name

  -- `if (capabilities & TRILOGY_CAPABILITIES_PLUGIN_AUTH)`
  unfoldable pub write_plugin : Option (List ℕ) → Run Builder (Unit {0})
  write_plugin auth_plugin = do plugin ← known auth_plugin; write_string grants plugin

module _ (sha1 sha256 : List ℕ → List ℕ) where
  -- The plugin to name, and `auth_response`. An empty password has no response.
  unfoldable pub auth_response :
      List ℕ → Option (List ℕ) → List ℕ → Run Builder (Option (List ℕ) × List ℕ)
  auth_response pass auth_plugin scramble = if length pass == 0 then done (auth_plugin, []) else (do
    plugin ← known auth_plugin
    salt ← whole_scramble scramble
    done (
        if same_text caching_sha2_password plugin
        then (some plugin, sha2_hash sha256 salt pass)
        else (some native_password, native_hash sha1 salt pass)))

  module _ (grants : ℕ → Bool) where
    unfoldable pub build_auth_packet :
        Option (List ℕ)
        → List ℕ
        → Option (List ℕ)
        → ℕ
        → Option (List ℕ)
        → List ℕ
        → ℕ
        → Run Builder (Unit {0})
    build_auth_packet user pass database client_encoding auth_plugin scramble flags = do
      write_uint32 grants (auth_capabilities flags database)
      write_uint32 grants max_packet_len
      write_uint8 grants client_encoding
      write_buffer grants (replicate 23 0)
      write_string grants (user_name user)
      (plugin, response) ← auth_response pass auth_plugin scramble
      write_uint8 grants (length response % 256)
      write_if (ltb 0 (length response)) (write_buffer grants response)
      write_database grants database
      write_if (has (auth_capabilities flags database) capabilities_plugin_auth)
          (write_plugin grants plugin)
      finalize

    -- The response to a switch to `plugin`, where the password is not empty.
    unfoldable pub write_switch_response : List ℕ → List ℕ → List ℕ → Bool → Run Builder (Unit {0})
    write_switch_response pass plugin scramble enable_cleartext_plugin =
        if same_text clear_password plugin
        then (if enable_cleartext_plugin then write_buffer grants pass else fail auth_plugin_error)
        else if same_text caching_sha2_password plugin
        then (do salt ← whole_scramble scramble; write_buffer grants (sha2_hash sha256 salt pass))
        else if same_text native_password plugin
        then (do salt ← whole_scramble scramble; write_buffer grants (native_hash sha1 salt pass))
        else fail auth_plugin_error

    unfoldable pub build_auth_switch_response_packet :
        List ℕ → Option (List ℕ) → List ℕ → Bool → Run Builder (Unit {0})
    build_auth_switch_response_packet pass auth_plugin scramble enable_cleartext_plugin = do
      write_if (ltb 0 (length pass)) (do
        plugin ← known auth_plugin
        write_switch_response pass plugin scramble enable_cleartext_plugin)
      finalize
