-- ===== src/HumanAuth/Provider.antt =====
-- internal/humanauth/provider.go.
use mcp_webtools.Prelude.{Bytes, codes}

pub record Identity : Type 0 where
  pub subject : Bytes
  pub display_name : Bytes
  pub role : Bytes

-- `StubProvider` answers every request with this identity.
abbrev pub stub_identity : Identity
stub_identity = record {
  subject = codes "stub-user";
  display_name = codes "Local Tester";
  role = codes "admin";
}
