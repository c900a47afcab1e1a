-- ===== src/HttpClient.antt =====
-- internal/httpclient/httpclient.go: the settings of the client that the tools share. The retries
-- themselves, and the time-out over all of them, are go-retryablehttp's and net/http's.
use mcp_webtools.Prelude.{Bool, true, if◌then◌else◌, ℤ, pos, ltb_ℤ}

pub record HttpClient : Type 0 where
  pub retry_max : ℤ
  pub retry_wait_min : ℤ
  pub retry_wait_max : ℤ
  pub proxy_from_environment : Bool
  pub timeout : ℤ

-- A negative number of retries falls back to 2. The waits are 500 ms and 5 s.
unfoldable pub new : ℤ → ℤ → HttpClient
new timeout retry_max = record {
  retry_max = if ltb_ℤ retry_max (pos 0) then pos 2 else retry_max;
  retry_wait_min = pos 500_000_000;
  retry_wait_max = pos 5_000_000_000;
  proxy_from_environment = true;
  timeout = timeout;
}
