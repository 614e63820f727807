-- ===== src/Protocol/Auth/Switch.antt =====
-- The response to a switch of the plugin.
use trilogy.Prelude.{
  ℕ, ◌^◌, ◌≤◌, ◌<◌, ◌≡◌, refl, ap, ◌∙◌, arith, ltb, ◌==◌, Bool, true, false, Bool-cases,
  Option-cases, inl, inr, ◌⊎◌, fail, if◌then◌else◌, List, [], length, take, Option, none, some, ok,
  err, bind_run, bind_stop, auth_plugin_error,
}
use trilogy.Buffer.{Buffer}
use trilogy.Builder.{Builder, builder_init}
use trilogy.Builder.Writes.{Writes, Writes-done, Writes-bytes}
use trilogy.Builder.WriteBuffer.{Writes-buffer}
use trilogy.Builder.Framing.{builder_init-Holds}
use trilogy.Builder.Packs.{IsPacket, Packs, Packs-last, pack, pack-IsPacket}
use trilogy.Protocol.Types.{scramble_len}
use trilogy.Protocol.Auth.{
  native_password, caching_sha2_password, clear_password, same_text, native_hash, sha2_hash,
  write_if, write_switch_response, build_auth_switch_response_packet,
}
use trilogy.Protocol.Auth.Packed.{Writes-after, Gives-known, Gives-scramble}

zero_length : (n : ℕ) → (n == 0) ≡ true → ltb 0 n ≡ false
zero_length n h = ground arith

some_length : (n : ℕ) → (n == 0) ≡ false → ltb 0 n ≡ true
some_length n h = ground arith

-- The response to a switch: nothing for an empty password, the password itself for mysql_clear_password where that is
-- allowed, and a hash for the two other plugins.
abbrev pub switch_bytes :
    (List ℕ → List ℕ) → (List ℕ → List ℕ) → List ℕ → List ℕ → List ℕ → Bool → Option (List ℕ)
switch_bytes sha1 sha256 pass plugin scramble allowed =
    if length pass == 0
    then some []
    else if same_text clear_password plugin
    then (if allowed then some pass else none)
    else if same_text caching_sha2_password plugin
    then some (sha2_hash sha256 (take scramble_len scramble) pass)
    else if same_text native_password plugin
    then some (native_hash sha1 (take scramble_len scramble) pass)
    else none

-- What is sent, where something is.
abbrev pub sent_of : Option (List ℕ) → List ℕ
sent_of none = []
sent_of (some xs) = xs

-- The response to a switch, for each plugin that there is one for, and the refusal where there is none.
module _ (sha1 sha256 : List ℕ → List ℕ) (grants : ℕ → Bool) (pass plugin scramble : List ℕ)
    (allowed : Bool) where
  Writes-switch :
      (sent : List ℕ)
      → ((n : ℕ) → grants n ≡ true)
      → scramble_len ≤ length scramble
      → (length pass == 0) ≡ false
      → switch_bytes sha1 sha256 pass plugin scramble allowed ≡ some sent
      → Writes (write_switch_response sha1 sha256 grants pass plugin scramble allowed) sent
  unfolding write_switch_response
  Writes-switch sent granted h some_ e = elim (Bool-cases (same_text clear_password plugin)) [
    | inl f ↦ elim (Bool-cases allowed) [
      | inl g ↦
          rw (f, g)
            (Writes-bytes (Writes-buffer grants granted pass) (ap sent_of (rw (some_, f, g) at e)))
      | inr g ↦ (let no : none ≡ some sent = rw (some_, f, g) at e in cc)
    ]
    | inr f ↦ elim (Bool-cases (same_text caching_sha2_password plugin)) [
      | inl g ↦
          rw (f, g)
            (Writes-bytes
              (Writes-after _ _ (Gives-scramble scramble h) (Writes-buffer grants granted _))
              (ap sent_of (rw (some_, f, g) at e)))
      | inr g ↦ elim (Bool-cases (same_text native_password plugin)) [
        | inl k ↦
            rw (f, g, k)
              (Writes-bytes
                (Writes-after _ _ (Gives-scramble scramble h) (Writes-buffer grants granted _))
                (ap sent_of (rw (some_, f, g, k) at e)))
        | inr k ↦ (let no : none ≡ some sent = rw (some_, f, g, k) at e in cc)
      ]
    ]
  ]

  Packs-switch :
      (sent : List ℕ)
      → ((n : ℕ) → grants n ≡ true)
      → scramble_len ≤ length scramble
      → switch_bytes sha1 sha256 pass plugin scramble allowed ≡ some sent
      → Packs
          (build_auth_switch_response_packet sha1 sha256 grants pass (some plugin) scramble allowed)
          sent
  unfolding build_auth_switch_response_packet write_if
  Packs-switch sent granted h e = elim (Bool-cases (length pass == 0)) [
    | inl f ↦
        rw (zero_length (length pass) f)
          (Packs-last _ (Writes-bytes Writes-done (ap sent_of (rw f at e))))
    | inr f ↦
        rw (some_length (length pass) f)
          (Packs-last _ (Writes-after _ _ (Gives-known plugin) (Writes-switch sent granted h f e)))
  ]

  -- No response: the call fails, and nothing is written.
  refused :
      (b : Builder)
      → (length pass == 0) ≡ false
      → switch_bytes sha1 sha256 pass plugin scramble allowed ≡ none
      → write_switch_response sha1 sha256 grants pass plugin scramble allowed b
        ≡ (err auth_plugin_error, b)
  unfolding write_switch_response fail
  refused b some_ e = elim (Bool-cases (same_text clear_password plugin)) [
    | inl f ↦ elim (Bool-cases allowed) [
      | inl g ↦ (let no : some pass ≡ none = rw (some_, f, g) at e in cc)
      | inr g ↦ rw (f, g) refl
    ]
    | inr f ↦ elim (Bool-cases (same_text caching_sha2_password plugin)) [
      | inl g ↦
          (let no : some (sha2_hash sha256 (take scramble_len scramble) pass) ≡ none =
              rw (some_, f, g) at e in
            cc)
      | inr g ↦ elim (Bool-cases (same_text native_password plugin)) [
        | inl k ↦
            (let no : some (native_hash sha1 (take scramble_len scramble) pass) ≡ none =
                rw (some_, f, g, k) at e in
              cc)
        | inr k ↦ rw (f, g, k) refl
      ]
    ]
  ]

  refused_packet :
      (b : Builder)
      → switch_bytes sha1 sha256 pass plugin scramble allowed ≡ none
      → build_auth_switch_response_packet sha1 sha256 grants pass (some plugin) scramble allowed b
        ≡ (err auth_plugin_error, b)
  unfolding build_auth_switch_response_packet write_if
  refused_packet b e = elim (Bool-cases (length pass == 0)) [
    | inl f ↦ (let no : some [] ≡ none = rw f at e in cc)
    | inr f ↦
        rw (some_length (length pass) f)
          (bind_stop _ _ (bind_run _ _ ((Gives-known plugin).at b) ∙ refused b f e))
  ]

-- The response to a switch of the plugin, built on a fresh builder where memory is granted, is the payload
-- `switch_bytes` in frames from the sequence number `seq` on: for an empty password the empty payload, whatever the plugin
-- is called. Where there is no response, for a password that is not empty and a plugin that is not known, or
-- mysql_clear_password where that was not allowed, the call fails with TRILOGY_AUTH_PLUGIN_ERROR and has written nothing
-- behind the header. The scramble has 20 bytes at least, and the response is shorter than 2 ^ 60 bytes.
pub pack-build_auth_switch_response_packet :
    (sha1 sha256 : List ℕ → List ℕ) (grants : ℕ → Bool) (buff : Buffer) (seq : ℕ)
    (pass plugin scramble : List ℕ) (allowed : Bool)
    → ((n : ℕ) → grants n ≡ true)
    → buff.allocated ≡ true
    → 0 < buff.cap
    → seq < 256
    → scramble_len ≤ length scramble
    → length (sent_of (switch_bytes sha1 sha256 pass plugin scramble allowed)) < 2 ^ 60
    → ((switch_bytes sha1 sha256 pass plugin scramble allowed ≡ none)
        × (pack grants buff seq (
              build_auth_switch_response_packet sha1 sha256 grants pass
                (some plugin)
                scramble
                allowed)
            ≡ (err auth_plugin_error, (builder_init grants buff seq).1)))
      ⊎ ((sent : List ℕ) × (switch_bytes sha1 sha256 pass plugin scramble allowed ≡ some sent)
          × (b : Builder) × (pack grants buff seq (
                build_auth_switch_response_packet sha1 sha256 grants pass
                  (some plugin)
                  scramble
                  allowed)
              ≡ (ok tt, b))
          × IsPacket seq sent b)
unfolding pack
pack-build_auth_switch_response_packet sha1 sha256 grants buff seq pass plugin scramble allowed
      granted live pos byte salt short =
    elim (Option-cases (switch_bytes sha1 sha256 pass plugin scramble allowed)) [
      | inl e ↦
          let (b, begun, h) = builder_init-Holds grants granted buff seq live pos byte in
          inl (e, rw begun (refused_packet sha1 sha256 grants pass plugin scramble allowed b e))
      | inr (sent, e) ↦
          let short' : length sent < 2 ^ 60 = rw e at short in
          let (b, built, p) =
            pack-IsPacket grants buff seq
              (build_auth_switch_response_packet sha1 sha256 grants pass (some plugin) scramble
                allowed)
              sent granted live pos byte short'
              (Packs-switch sha1 sha256 grants pass plugin scramble allowed sent granted salt e) in
          inr (sent, e, b, built, p)
    ]
