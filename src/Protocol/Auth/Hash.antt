-- ===== src/Protocol/Auth/Hash.antt =====
-- What the server makes of the responses.
use trilogy.Prelude.{
  ℕ, ◌≡◌, refl, ap, ◌∙◌, bit_xor_twice, bit_xor_comm, arith, List, [], ◌∷◌, ◌++◌, length,
}
use trilogy.Protocol.Auth.{xor_bytes, native_hash, sha2_hash}

xor_bytes_twice : (xs ys : List ℕ) → length xs ≡ length ys → xor_bytes (xor_bytes xs ys) ys ≡ xs
xor_bytes_twice [] ys h = refl
xor_bytes_twice (x ∷ xs) [] h = absurd (omega arith)
xor_bytes_twice (x ∷ xs) (y ∷ ys) h =
    λ i. bit_xor_twice x y i ∷ xor_bytes_twice xs ys (omega arith) i

xor_bytes_comm : (xs ys : List ℕ) → length xs ≡ length ys → xor_bytes xs ys ≡ xor_bytes ys xs
xor_bytes_comm [] [] h = refl
xor_bytes_comm [] (y ∷ ys) h = absurd (omega arith)
xor_bytes_comm (x ∷ xs) [] h = absurd (omega arith)
xor_bytes_comm (x ∷ xs) (y ∷ ys) h = λ i. bit_xor_comm x y i ∷ xor_bytes_comm xs ys (omega arith) i

-- What a server that stores the digest of the digest of the password recovers from a response to `scramble`. Its own
-- digest is to be what the server stores.
abbrev pub recovered : (List ℕ → List ℕ) → List ℕ → List ℕ → List ℕ
recovered digest response challenge = xor_bytes response (digest challenge)

-- From either response a server that stores only the digest of the digest of the password recovers the digest of the
-- password, with the scramble before what it stores for mysql_native_password and behind it for
-- caching_sha2_password. All digests of an algorithm have one length.
pub recovered-responses :
    (sha1 sha256 : List ℕ → List ℕ) (scramble password : List ℕ)
    → ((xs ys : List ℕ) → length (sha1 xs) ≡ length (sha1 ys))
    → ((xs ys : List ℕ) → length (sha256 xs) ≡ length (sha256 ys))
    → (recovered sha1 (native_hash sha1 scramble password) (scramble ++ sha1 (sha1 password))
        ≡ sha1 password)
      × (recovered sha256
            (sha2_hash sha256 scramble password)
            (sha256 (sha256 password) ++ scramble)
          ≡ sha256 password)
unfolding native_hash sha2_hash
recovered-responses sha1 sha256 scramble password h k = (
  ap (λ t. xor_bytes t (sha1 (scramble ++ sha1 (sha1 password)))) (xor_bytes_comm _ _ (h _ _))
      ∙ xor_bytes_twice (sha1 password) _ (h _ _),
  xor_bytes_twice (sha256 password) _ (k _ _),
)
