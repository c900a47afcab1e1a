-- ===== src/Startup/Config.antt =====
-- The choice of the human authentication in `buildAppHandler`. The base64 decoder of the standard
-- library and the discovery of the OIDC issuer are parameters.
use mcp_webtools.Prelude.{
  Outcome, ok, err, ◌≡◌, ◌≢◌, inl, inr, Bool, not, ◌||◌, Option, none, some, ◌++◌, arith, ◌==◌,
  if◌then◌else◌, Option-cases, length, take, drop, Bytes, is_empty,
}
use mcp_webtools.HumanAuth.Crypto.{Aead, bad_key, encrypt_refresh_token, decrypt_refresh_token}

-- The flags that the choice reads.
pub record Flags : Type 0 where
  pub auth_stub : Bool
  pub oidc_issuer : Bytes
  pub oidc_client_id : Bytes
  pub oidc_client_secret : Bytes
  pub public_url : Bytes
  pub admin_group : Bytes
  pub session_encryption_key : Bytes

pub record OidcConfig : Type 0 where
  pub issuer : Bytes
  pub client_id : Bytes
  pub client_secret : Bytes
  pub public_url : Bytes
  pub admin_group : Bytes
  pub encryption_key : Bytes

pub data ConfigError : Type 0 where
  missing_setting key_not_base64 key_size discovery_failed : ConfigError

pub data HumanAuthentication : Type 0 where
  stub : HumanAuthentication
  oidc : OidcConfig → HumanAuthentication

unfoldable pub configure :
    (Bytes → Option Bytes) → (OidcConfig → Bool) → Flags → Outcome ConfigError HumanAuthentication
configure decode discover flags =
    if flags.auth_stub
    then ok stub
    else if is_empty flags.oidc_issuer
        || (is_empty flags.oidc_client_id
            || (is_empty flags.oidc_client_secret
                || (is_empty flags.public_url || is_empty flags.session_encryption_key)))
    then err missing_setting
    else elim (decode flags.session_encryption_key) [
      | none ↦ err key_not_base64
      | some key ↦
          if not (length key == 32)
          then err key_size
          else let config : OidcConfig = record {
            issuer = flags.oidc_issuer;
            client_id = flags.oidc_client_id;
            client_secret = flags.oidc_client_secret;
            public_url = flags.public_url;
            admin_group = flags.admin_group;
            encryption_key = key;
          } in
            if discover config then ok (oidc config) else err discovery_failed
    ]

configure-length :
    (decode : Bytes → Option Bytes) (discover : OidcConfig → Bool) (flags : Flags)
    (config : OidcConfig)
    → configure decode discover flags ≡ ok (oidc config)
    → length config.encryption_key ≡ 32
unfolding configure
configure-length decode discover flags config h =
    elim (Option-cases (decode flags.session_encryption_key)) [
      | inl missing ↦ grind arith
      | inr (key, found) ↦ grind arith
    ]

decrypt-key :
    (g : Aead) (key encoded : Bytes)
    → length key ≡ 32
    → decrypt_refresh_token g key encoded ≢ err bad_key
unfolding decrypt_refresh_token
decrypt-key g key encoded sized e = elim (Option-cases (g.decode encoded)) [
  | inl missing ↦ grind arith
  | inr (raw, found) ↦
      elim (Option-cases (g.unseal key (take g.nonce_size raw) (drop g.nonce_size raw))) [
        | inl missing ↦ grind arith
        | inr (text, opened_text) ↦ grind arith
      ]
]

-- Under a configuration that is accepted and is not the stub, encryption with its key succeeds
-- whenever the source of randomness does, and decryption never fails for the key.
pub configure-key :
    (decode : Bytes → Option Bytes) (discover : OidcConfig → Bool) (flags : Flags)
    (config : OidcConfig) (g : Aead) (fresh plain encoded : Bytes)
    → configure decode discover flags ≡ ok (oidc config)
    → ((text : Bytes) × (encrypt_refresh_token g config.encryption_key (some fresh) plain
          ≡ ok text))
      × (decrypt_refresh_token g config.encryption_key encoded ≢ err bad_key)
unfolding encrypt_refresh_token decrypt_refresh_token
configure-key decode discover flags config g fresh plain encoded h =
    let sized = configure-length decode discover flags config h in
    (
      (g.encode (fresh ++ g.seal config.encryption_key fresh plain), ground (arith, sized)),
      decrypt-key g config.encryption_key encoded sized,
    )
