-- ===== src/StartupTests.antt =====
-- Runs of the start-up, of the pruning of history, and of the cache beside its abstract view.
use mcp_webtools.Prelude.{
  map, arith, ok, err, ℕ, ◌*◌, ◌≤◌, ◌≡◌, refl, true, false, not, none, some, List, [], ◌∷◌, ◌++◌,
  length, drop, pos, ltb_ℤ, Bytes, codes, same, bytes_discrete,
}
use mcp_webtools.Storage.{DbError}
use mcp_webtools.Storage.History.{Call, Calls}
use mcp_webtools.Storage.History.Rows.{filter}
use mcp_webtools.HumanAuth.Crypto.{Aead}
use mcp_webtools.Startup.Config.{Flags, OidcConfig, configure}
use mcp_webtools.Startup.Retry.{opened, elapsed, failures, retry_open_until_ready, retry-opens}
use mcp_webtools.Startup.Degraded
use mcp_webtools.Startup.Degraded.{
  Event, open_failed, published, boot, serve_degraded, run, step, handle, reply, SaysReady,
  readyz_route, other_route, status, routed,
}
use mcp_webtools.Startup.Degraded.Order.{run-SaysReady}
use mcp_webtools.Startup.Degraded.Publish.{failures_then, run-publishes}
use mcp_webtools.Startup.Pruning.{
  Deletes, prune_history_until_done, is_kept_at_all, prune_history-rows,
}
use mcp_webtools.Storage.Schema.Migrated.{EachMigrated, backfill-IsMigrated}
use mcp_webtools.Storage.Schema.{Row, Schema, fill, fill_all, backfill_tool_call_rename}
use mcp_webtools.Storage.Schema.Backfill.{Updates}
use mcp_webtools.Health.{readyz}
use mcp_webtools.Cache.Memory.{new}
use mcp_webtools.Cache.Memory.Invariant.{Op, getting, putting}
use mcp_webtools.Cache.Memory.Lru.{lru_answers, lru_step, lru_get, lru_put, fit}
use mcp_webtools.Cache.Table.{lookup, remove}
use mcp_webtools.Cache.Memory.Refines.Run.{answers, new-answers}

program : Unit {0}
unfolding run step handle reply readyz boot serve_degraded configure same
program = tt

retry-opens_example :
    (retry_open_until_ready {E = ℕ} {Db = ℕ} (failures (1 ∷ 2 ∷ []) ++ ok 7 ∷ [])
      ≡ (opened 7, elapsed 3))
    × (1_000_000_000 * 3 ≤ elapsed 3)
    × (elapsed 3 ≤ 30_000_000_000 * 3)
retry-opens_example = retry-opens (1 ∷ 2 ∷ []) 7 []

abbrev events : List (Event ℕ)
events = open_failed ∷ Degraded.opened (some 5) ∷ published ∷ open_failed ∷ []

run-SaysReady_example :
    (app : ℕ) × (reply (run (boot false none) events) true other_route ≡ routed app)
unfolding program
run-SaysReady_example = run-SaysReady false none events true refl

run-publishes_example :
    (reply (run serve_degraded (failures_then {App = ℕ} 3 [])) true readyz_route ≡ status 503)
    × (reply (run serve_degraded (failures_then {App = ℕ} 3 [])) true other_route ≡ status 503)
    × SaysReady {App = ℕ}
        (run serve_degraded (failures_then 3 (Degraded.opened (some 5) ∷ published ∷ [])))
        true
    × (reply {App = ℕ}
          (run serve_degraded (failures_then 3 (Degraded.opened (some 5) ∷ published ∷ [])))
          true
          other_route
        ≡ routed 5)
run-publishes_example = run-publishes 3 5 true

abbrev call : ℕ → Call
call at = record {
  id = at ∷ [];
  actor_id = [];
  tool = codes "fetch";
  input_json = codes "{}";
  is_error = false;
  duration_ms = 1;
  output_size = 2;
  output_json = codes "{}";
  truncated = false;
  called_at = at;
}

abbrev calls_table : Calls (List Call)
calls_table = record {
  create = λ c db. ok (c ∷ db);
  first = λ id db. err DbError.failed;
  find = λ s db. ok db;
  delete_before = λ t db. (0, ok (filter (λ c. not (ltb_ℤ (pos c.called_at) t)) db));
  id_lt = λ a b. false;
}

calls-Deletes : Deletes calls_table (λ db. db)
calls-Deletes = record {
  deletes = λ t db. (filter (λ c. not (ltb_ℤ (pos c.called_at) t)) db, refl, refl);
}

prune_history-rows_example :
    prune_history_until_done calls_table (pos 3) (5 ∷ 8 ∷ []) (call 1 ∷ call 4 ∷ call 6 ∷ [])
    ≡ filter (is_kept_at_all 3 (5 ∷ 8 ∷ [])) (call 1 ∷ call 4 ∷ call 6 ∷ [])
prune_history-rows_example =
    prune_history-rows calls_table (λ db. db) calls-Deletes (pos 3) (5 ∷ 8 ∷ [])
      (call 1 ∷ call 4 ∷ call 6 ∷ [])

abbrev ten : Bytes
ten = codes "0123456789"

abbrev key : Bytes
key = ten ++ ten ++ ten ++ codes "01"

abbrev flags : Flags
flags = record {
  auth_stub = false;
  oidc_issuer = codes "https://idp";
  oidc_client_id = codes "web";
  oidc_client_secret = codes "x";
  public_url = codes "https://web";
  admin_group = codes "admins";
  session_encryption_key = key;
}

abbrev config : OidcConfig
config = record {
  issuer = codes "https://idp";
  client_id = codes "web";
  client_secret = codes "x";
  public_url = codes "https://web";
  admin_group = codes "admins";
  encryption_key = key;
}

abbrev toy : Aead
toy = record {
  nonce_size = 2;
  seal = λ key nonce text. nonce ++ text;
  unseal = λ key nonce text. some (drop (length nonce) text);
  encode = λ b. b;
  decode = λ b. some b;
}

abbrev ops : List (Op ℕ)
ops =
    putting (codes "a") 1 3 0
    ∷ putting (codes "b") 2 4 1
    ∷ getting (codes "a") 2
    ∷ putting (codes "c") 3 5 3
    ∷ getting (codes "b") 4
    ∷ getting (codes "a") 5
    ∷ []

new-answers_example : answers (new (pos 9) (pos 100)) ops ≡ lru_answers 9 (pos 100) ops []
new-answers_example = new-answers ops 9 (pos 100)

-- The cache gives what was used last, and has dropped what was not.
answers-run : answers (new (pos 9) (pos 100)) ops ≡ none ∷ none ∷ some 1 ∷ none ∷ none ∷ some 1 ∷ []
unfolding lru_answers lru_step lru_get lru_put fit lookup remove bytes_discrete
answers-run = new-answers ops 9 (pos 100)

abbrev old_row : Row
old_row = record {
  args = some (codes "{}");
  response_preview = some (codes "page");
  created_at = some 3;
  status = some (codes "error");
  input_json = some [];
  output_json = none;
  called_at = none;
  is_error = none;
}

abbrev schema : Schema (List Row)
schema = record {
  has_column = λ c db. true;
  exec = λ f db. ok (map f db);
  auto_migrate = λ db. ok db;
}

schema-Updates : Updates schema (λ db. db)
schema-Updates = record {
  table = λ f db next h. ground (arith, h);
  columns = λ f db next h c. refl;
}

abbrev new_row : Row
new_row = record old_row {
  input_json = some (codes "{}");
  output_json = some (codes "page");
  called_at = some 3;
  is_error = some true;
}

backfill-IsMigrated_example :
    EachMigrated (λ c. true) (old_row ∷ []) (new_row ∷ []) × (new_row ∷ [] ≡ new_row ∷ [])
unfolding program fill fill_all backfill_tool_call_rename
backfill-IsMigrated_example =
    backfill-IsMigrated schema (λ db. db) schema-Updates (old_row ∷ []) (new_row ∷ [])
      (new_row ∷ []) refl refl
