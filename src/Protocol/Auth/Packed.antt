-- ===== src/Protocol/Auth/Packed.antt =====
-- The packets of the authentication, as the protocol's documents describe them, and as the builder has them.
use mathlib.Core.Path.{subst}
use trilogy.Prelude.{
  bit_or, ℕ, ◌^◌, ◌≤◌, ◌<◌, ◌≡◌, refl, ap, ◌∙◌, arith, ltb, ltb_ge, lt→ltb, ◌==◌, Bool, true, false,
  Bool-cases, inl, inr, if◌then◌else◌, List, [], ◌∷◌, ◌++◌, length, replicate, take, Option, none,
  some, Run, ok, done, ◌>>=◌, bind_run,
}
use trilogy.Wire.{le, nul_str}
use trilogy.Buffer.{Buffer}
use trilogy.Builder.{Builder, max_packet_len, write_uint32, write_buffer}
use trilogy.Builder.Writes.{Writes, Writes-done, Writes-bytes, Writes-uint8, Writes-le}
use trilogy.Builder.WriteBuffer.{Writes-buffer, Writes-string}
use trilogy.Builder.Packs.{IsPacket, Packs, Packs-bind, Packs-last, pack, pack-IsPacket}
use trilogy.Protocol.Types.{has, capabilities_plugin_auth, scramble_len}
use trilogy.Protocol.Auth.{
  native_password, caching_sha2_password, same_text, known, whole_scramble, native_hash, sha2_hash,
  auth_capabilities, user_name, write_if, write_database, write_plugin, auth_response,
  build_auth_packet,
}

-- A step that only finds a value.
pub record Gives {A : Type 0} (m : Run Builder A) (a : A) : Type 0 where
  pub at : (b : Builder) → m b ≡ (ok a, b)

pub Packs-after :
    {A : Type 0} (m : Run Builder A) (f : A → Run Builder (Unit {0})) {a : A} {xs : List ℕ}
    → Gives m a
    → Packs (f a) xs
    → Packs (m >>= f) xs
Packs-after m f g p = record {
  at = λ s q limit b h fits.
      let (b', e, done_) = p.at s q limit b h fits in (b', bind_run m f (g.at b) ∙ e, done_);
}

pub Writes-after :
    {A : Type 0} (m : Run Builder A) (f : A → Run Builder (Unit {0})) {a : A} {xs : List ℕ}
    → Gives m a
    → Writes (f a) xs
    → Writes (m >>= f) xs
Writes-after m f g p = record {
  at = λ s q limit b h fits.
      let (b', e, done_) = p.at s q limit b h fits in (b', bind_run m f (g.at b) ∙ e, done_);
}

pub Gives-known : {A : Type 0} (a : A) → Gives {A = A} (known (some a)) a
unfolding known done
Gives-known a = record { at = λ b. refl }

pub Gives-scramble :
    (scramble : List ℕ)
    → scramble_len ≤ length scramble
    → Gives (whole_scramble scramble) (take scramble_len scramble)
unfolding whole_scramble
Gives-scramble scramble h =
    rw (ltb_ge (length scramble) scramble_len h) (Gives-known (take scramble_len scramble))

-- The plugin that is named and the response, for the plugin that the server named.
abbrev pub response_of :
    (List ℕ → List ℕ) → (List ℕ → List ℕ) → List ℕ → List ℕ → List ℕ → List ℕ × List ℕ
response_of sha1 sha256 pass plugin scramble =
    if length pass == 0
    then (plugin, [])
    else if same_text caching_sha2_password plugin
    then (plugin, sha2_hash sha256 (take scramble_len scramble) pass)
    else (native_password, native_hash sha1 (take scramble_len scramble) pass)

abbrev pub database_bytes : Option (List ℕ) → List ℕ
database_bytes none = []
database_bytes (some name) = nul_str name

-- The flags that every connection has: those of TRILOGY_CAPABILITIES_CLIENT in one number, and CLIENT_CONNECT_WITH_DB with a database.
abbrev pub client_flags : ℕ → Option (List ℕ) → ℕ
client_flags flags none = bit_or flags 0x188a200
client_flags flags (some name) = bit_or (bit_or flags 0x188a200) 0x8

-- The user, and "root" where none was given.
abbrev pub user_bytes : Option (List ℕ) → List ℕ
user_bytes none = 114 ∷ 111 ∷ 111 ∷ 116 ∷ 0 ∷ []
user_bytes (some user) = nul_str user

-- A handshake response: the flags, the largest packet, the charset, 23 zeros, the user, the response with its length in
-- a byte, the database where there is one, and the plugin where the flags have CLIENT_PLUGIN_AUTH.
abbrev pub auth_bytes : Option (List ℕ) → Option (List ℕ) → ℕ → ℕ → List ℕ × List ℕ → List ℕ
auth_bytes user database charset flags (plugin, response) =
    le 4 (client_flags flags database)
    ++ (le 4 0xffffff
        ++ (charset ∷ []
            ++ (replicate 23 0
                ++ (user_bytes user
                    ++ (length response ∷ []
                        ++ (response
                            ++ (database_bytes database
                                ++ (if has (client_flags flags database) 0x80000
                                    then nul_str plugin
                                    else []))))))))

-- The same in the code's terms.
abbrev built_bytes : Option (List ℕ) → Option (List ℕ) → ℕ → ℕ → List ℕ × List ℕ → List ℕ
built_bytes user database charset flags (plugin, response) =
    le 4 (auth_capabilities flags database)
    ++ (le 4 max_packet_len
        ++ (charset ∷ []
            ++ (replicate 23 0
                ++ (nul_str (user_name user)
                    ++ (length response ∷ []
                        ++ (response
                            ++ (database_bytes database
                                ++ (if has (auth_capabilities flags database)
                                      capabilities_plugin_auth
                                    then nul_str plugin
                                    else []))))))))

built_bytes_lem :
    (user database : Option (List ℕ)) (charset flags : ℕ) (r : List ℕ × List ℕ)
    → built_bytes user database charset flags r ≡ auth_bytes user database charset flags r
unfolding max_packet_len
built_bytes_lem none none charset flags r = refl
built_bytes_lem none (some d) charset flags r = refl
built_bytes_lem (some u) none charset flags r = refl
built_bytes_lem (some u) (some d) charset flags r = refl

Writes-if :
    (b : Bool) (m : Run Builder (Unit {0})) {xs : List ℕ}
    → Writes m xs
    → Writes (write_if b m) (if b then xs else [])
unfolding write_if
Writes-if true m w = w
Writes-if false m w = Writes-done

Gives-response :
    (sha1 sha256 : List ℕ → List ℕ) (pass plugin scramble : List ℕ)
    → scramble_len ≤ length scramble
    → Gives (auth_response sha1 sha256 pass (some plugin) scramble) (
      some (response_of sha1 sha256 pass plugin scramble).0,
      (response_of sha1 sha256 pass plugin scramble).1,
    )
unfolding auth_response done
Gives-response sha1 sha256 pass plugin scramble h = elim (Bool-cases (length pass == 0)) [
  | inl e ↦ rw e (record { at = λ b. refl })
  | inr e ↦ elim (Bool-cases (same_text caching_sha2_password plugin)) [
    | inl f ↦
        rw (e, f)
          (record {
            at = λ b.
                bind_run _ _ ((Gives-known plugin).at b)
                ∙ bind_run _ _ ((Gives-scramble scramble h).at b)
                ∙ rw f refl;
          })
    | inr f ↦
        rw (e, f)
          (record {
            at = λ b.
                bind_run _ _ ((Gives-known plugin).at b)
                ∙ bind_run _ _ ((Gives-scramble scramble h).at b)
                ∙ rw f refl;
          })
  ]
]

module _ (grants : ℕ → Bool) (granted : (n : ℕ) → grants n ≡ true) where
  Writes-response : (r : List ℕ) → Writes (write_if (ltb 0 (length r)) (write_buffer grants r)) r
  unfolding write_if
  Writes-response [] = Writes-done
  Writes-response (x ∷ xs) =
      rw (lt→ltb 0 (length (x ∷ xs)) (omega arith)) (Writes-buffer grants granted (x ∷ xs))

  Writes-database :
      (database : Option (List ℕ))
      → Writes (write_database grants database) (database_bytes database)
  unfolding write_database
  Writes-database none = Writes-done
  Writes-database (some name) = Writes-string grants granted name

  Writes-plugin : (plugin : List ℕ) → Writes (write_plugin grants (some plugin)) (nul_str plugin)
  unfolding write_plugin
  Writes-plugin plugin = Writes-after _ _ (Gives-known plugin) (Writes-string grants granted plugin)

  Packs-built :
      (sha1 sha256 : List ℕ → List ℕ) (user : Option (List ℕ)) (pass : List ℕ)
      (database : Option (List ℕ)) (charset : ℕ) (plugin scramble : List ℕ) (flags : ℕ)
      → scramble_len ≤ length scramble
      → length (response_of sha1 sha256 pass plugin scramble).1 < 256
      → Packs
          (build_auth_packet sha1 sha256 grants user pass database charset
            (some plugin)
            scramble
            flags)
          (built_bytes user database charset flags (response_of sha1 sha256 pass plugin scramble))
  unfolding build_auth_packet write_uint32
  Packs-built sha1 sha256 user pass database charset plugin scramble flags h short =
      Packs-bind _ _ (Writes-le grants granted 4 (auth_capabilities flags database)) (
        Packs-bind _ _ (Writes-le grants granted 4 max_packet_len) (
          Packs-bind _ _ (Writes-uint8 grants granted charset) (
            Packs-bind _ _ (Writes-buffer grants granted (replicate 23 0)) (
              Packs-bind _ _ (Writes-string grants granted (user_name user)) (
                Packs-after _ _ (Gives-response sha1 sha256 pass plugin scramble h) (
                  Packs-bind _ _
                    (Writes-bytes (Writes-uint8 grants granted _)
                      (ap (λ n. n ∷ []) (omega (arith, short))))
                    (Packs-bind _ _ (Writes-response _) (
                      Packs-bind _ _ (Writes-database database)
                        (Packs-last _ (Writes-if _ _ (Writes-plugin _)))))))))))

  Packs-auth :
      (sha1 sha256 : List ℕ → List ℕ) (user : Option (List ℕ)) (pass : List ℕ)
      (database : Option (List ℕ)) (charset : ℕ) (plugin scramble : List ℕ) (flags : ℕ)
      → scramble_len ≤ length scramble
      → length (response_of sha1 sha256 pass plugin scramble).1 < 256
      → Packs
          (build_auth_packet sha1 sha256 grants user pass database charset
            (some plugin)
            scramble
            flags)
          (auth_bytes user database charset flags (response_of sha1 sha256 pass plugin scramble))
  Packs-auth sha1 sha256 user pass database charset plugin scramble flags h short =
      subst (Packs _)
        (built_bytes_lem user database charset flags (response_of sha1 sha256 pass plugin scramble))
        (Packs-built sha1 sha256 user pass database charset plugin scramble flags h short)

-- The handshake response, built on a fresh builder where memory is granted, is in the buffer the payload that the
-- protocol gives it, cut into frames from the sequence number `seq` on, with the response that the named plugin asks
-- for and the name of the plugin it is for. The server has named a plugin and sent a scramble of 20 bytes at least, a
-- response fits the length in a byte, and the payload is shorter than 2 ^ 60 bytes.
pub pack-build_auth_packet :
    (sha1 sha256 : List ℕ → List ℕ) (grants : ℕ → Bool) (buff : Buffer) (seq : ℕ)
    (user : Option (List ℕ)) (pass : List ℕ) (database : Option (List ℕ)) (charset : ℕ)
    (plugin scramble : List ℕ) (flags : ℕ)
    → ((n : ℕ) → grants n ≡ true)
    → buff.allocated ≡ true
    → 0 < buff.cap
    → seq < 256
    → scramble_len ≤ length scramble
    → length (response_of sha1 sha256 pass plugin scramble).1 < 256
    → length (auth_bytes user database charset flags (response_of sha1 sha256 pass plugin scramble))
      < 2 ^ 60
    → (b : Builder) × (pack grants buff seq (
          build_auth_packet sha1 sha256 grants user pass database charset
            (some plugin)
            scramble
            flags)
        ≡ (ok tt, b))
      × IsPacket seq
          (auth_bytes user database charset flags (response_of sha1 sha256 pass plugin scramble))
          b
pack-build_auth_packet sha1 sha256 grants buff seq user pass database charset plugin scramble flags
      granted live pos byte salt fits short =
    pack-IsPacket grants buff seq
      (build_auth_packet sha1 sha256 grants user pass database charset (some plugin) scramble flags)
      (auth_bytes user database charset flags (response_of sha1 sha256 pass plugin scramble))
      granted live pos byte short
      (Packs-auth grants granted sha1 sha256 user pass database charset plugin scramble flags salt
        fits)
