-- ===== src/HumanAuth/Crypto.antt =====
-- internal/humanauth/crypto.go: the refresh token at rest. AES-GCM and base64 are Go's standard
-- library, a parameter here with the laws that the code relies on.
use mcp_webtools.Prelude.{
  Outcome, ok, err, ℕ, ◌≤◌, ◌≡◌, subst, Bool, not, Option, none, some, ◌++◌, arith, ltb, ◌==◌,
  if◌then◌else◌, length, take, drop, length-append, take-append, drop-append, Bytes,
}

-- `seal` and `unseal` are AES-256-GCM under a key and a nonce, with no additional data.
pub record Aead : Type 0 where
  pub nonce_size : ℕ
  pub seal : Bytes → Bytes → Bytes → Bytes
  pub unseal : Bytes → Bytes → Bytes → Option Bytes
  pub encode : Bytes → Bytes
  pub decode : Bytes → Option Bytes

pub record Inverts (g : Aead) : Type 0 where
  pub unseal-seal :
      (key nonce text : Bytes) → g.unseal key nonce (g.seal key nonce text) ≡ some text
  pub decode-encode : (b : Bytes) → g.decode (g.encode b) ≡ some b

pub data CryptoError : Type 0 where
  bad_key no_randomness bad_base64 too_short tampered : CryptoError

-- The check of `newGCM`; with 32 bytes AES and GCM do not fail.
abbrev pub is_key : Bytes → Bool
is_key key = length key == 32

-- `fresh_nonce` is what the source of randomness gives, or `none` where it fails.
unfoldable pub encrypt_refresh_token :
    Aead → Bytes → Option Bytes → Bytes → Outcome CryptoError Bytes
encrypt_refresh_token g key fresh_nonce plaintext =
    if not (is_key key) then err bad_key else elim fresh_nonce [
      | none ↦ err no_randomness
      | some n ↦ ok (g.encode (n ++ g.seal key n plaintext))
    ]

unfoldable pub decrypt_refresh_token : Aead → Bytes → Bytes → Outcome CryptoError Bytes
decrypt_refresh_token g key encoded =
    if not (is_key key) then err bad_key else elim (g.decode encoded) [
      | none ↦ err bad_base64
      | some raw ↦
          if ltb (length raw) g.nonce_size
          then err too_short
          else elim (g.unseal key (take g.nonce_size raw) (drop g.nonce_size raw)) [
            | none ↦ err tampered
            | some text ↦ ok text
          ]
    ]

opened :
    (g : Aead) (key encoded raw text : Bytes)
    → length key ≡ 32
    → g.decode encoded ≡ some raw
    → g.nonce_size ≤ length raw
    → g.unseal key (take g.nonce_size raw) (drop g.nonce_size raw) ≡ some text
    → decrypt_refresh_token g key encoded ≡ ok text
unfolding decrypt_refresh_token
opened g key encoded raw text sized decoded long open_text =
    ground (arith, sized, decoded, long, open_text)

-- Where the cipher and the encoding have inverses, a refresh token that is encrypted with a key of
-- 32 bytes and a nonce of the cipher's size is decrypted to itself.
pub decrypt-encrypt :
    (g : Aead) (key nonce plaintext : Bytes)
    → Inverts g
    → length key ≡ 32
    → length nonce ≡ g.nonce_size
    → (encoded : Bytes) × (encrypt_refresh_token g key (some nonce) plaintext ≡ ok encoded)
      × (decrypt_refresh_token g key encoded ≡ ok plaintext)
unfolding encrypt_refresh_token
decrypt-encrypt g key nonce plaintext laws sized fits =
    let text = g.seal key nonce plaintext in
    let here : take g.nonce_size (nonce ++ text) ≡ nonce =
      subst (λ n. take n (nonce ++ text) ≡ nonce) fits (take-append nonce text) in
    let there : drop g.nonce_size (nonce ++ text) ≡ text =
      subst (λ n. drop n (nonce ++ text) ≡ text) fits (drop-append nonce text) in
    (
      g.encode (nonce ++ text),
      ground (arith, sized),
      opened g key _ (nonce ++ text) plaintext sized (laws.decode-encode _)
          (omega (arith, length-append nonce text, fits))
          (rw (here, there) (laws.unseal-seal key nonce plaintext)),
    )
