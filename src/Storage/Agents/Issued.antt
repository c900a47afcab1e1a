-- ===== src/Storage/Agents/Issued.antt =====
-- A token that was issued authenticates its agent.
use mcp_webtools.Prelude.{
  Outcome, ok, ℕ, ◌≡◌, refl, ap, ◌∙◌, subst, false, none, some, List, [], ◌∷◌, ◌++◌, arith, Bytes,
  same, same_refl,
}
use mcp_webtools.Storage.{DbError, StorageError}
use mcp_webtools.Storage.History.Rows.{All}
use mcp_webtools.Storage.Agents.{
  Actor, AgentCredential, Accounts, token_prefix, exec, answer, note_use, issue_agent_token,
  authenticate_agent_token,
}
use mcp_webtools.Storage.Agents.Revoked.{find_live, found, Keeps}

-- No row has this hash.
abbrev pub IsFreshHash : Bytes → List AgentCredential → Type 0
IsFreshHash h rows = All (λ c. same c.token_hash h ≡ false) rows

-- What SQL says of an INSERT into the credentials, and of the statements that leave the actors alone.
pub record Inserts {Db : Type 0} (q : Accounts Db) (rows : Db → List AgentCredential) : Type 0 where
  pub creates :
      (c : AgentCredential) (db : Db)
      → IsFreshHash c.token_hash (rows db)
      → (next : Db) × (front back : List AgentCredential) × (q.create_credential c db ≡ ok next)
        × (rows db ≡ front ++ back)
        × (rows next ≡ front ++ c ∷ back)
        × ((id : Bytes) → q.first_actor id next ≡ q.first_actor id db)
  pub touches :
      (c : AgentCredential) (now : ℕ) (db : Db) (id : Bytes)
      → q.first_actor id (note_use q c now db) ≡ q.first_actor id db

-- A credential found by its own hash, wherever the table has put it.
find_live-inserted :
    (front back : List AgentCredential) (c : AgentCredential)
    → IsFreshHash c.token_hash (front ++ back)
    → c.revoked_at ≡ none
    → find_live c.token_hash (front ++ c ∷ back) ≡ some c
unfolding find_live
find_live-inserted [] back c fresh live = ground (arith, same_refl c.token_hash, live)
find_live-inserted (d ∷ front) back c fresh live =
    ground (arith, fresh.0, find_live-inserted front back c fresh.1 live)

module _ {Db : Type 0} (q : Accounts Db) (rows : Db → List AgentCredential) (keeps : Keeps q rows)
    (inserts : Inserts q rows) (hash_token : Bytes → Bytes) where
  authenticate_found :
      (later : ℕ) (raw : Bytes) (db : Db) (c : AgentCredential)
      → q.first_live (hash_token raw) db ≡ ok c
      → (authenticate_agent_token q hash_token later raw db).0
        ≡ answer (q.first_actor c.actor_id (note_use q c later db))
  unfolding authenticate_agent_token
  authenticate_found later raw db c h = ground (arith, h)

  -- Where the statements do what SQL says of them, a token issued for an actor that is there is
  -- the prefix and the random text, and it authenticates that actor at any later time, given that
  -- its hash is new to the table.
  pub issue-authenticate :
      (fresh_id text actor_id : Bytes) (actor : Actor) (db : Db) (later : ℕ)
      → IsFreshHash (hash_token (token_prefix ++ text)) (rows db)
      → q.first_actor actor_id db ≡ ok actor
      → let issued = issue_agent_token q hash_token fresh_id (some text) actor_id db in
        (issued.0 ≡ ok (token_prefix ++ text))
        × ((authenticate_agent_token q hash_token later (token_prefix ++ text) issued.1).0
            ≡ ok actor)
  unfolding issue_agent_token
  issue-authenticate fresh_id text actor_id actor db later fresh known =
      let raw = token_prefix ++ text in
      let c : AgentCredential = record {
        id = fresh_id;
        actor_id = actor_id;
        token_hash = hash_token raw;
        last_used_at = none;
        revoked_at = none;
      } in
      let (next, front, back, done, before, table, actors) = inserts.creates c db fresh in
      let ran : exec (q.create_credential c db) raw db ≡ (ok raw, next) =
        ap (λ (o : Outcome DbError Db). exec o raw db) done in
      let hit : q.first_live (hash_token raw) next ≡ ok c =
        keeps.finds (hash_token raw) next
        ∙ ap (λ t. found (find_live (hash_token raw) t)) table
        ∙ ap found (
            find_live-inserted front back c (subst (IsFreshHash (hash_token raw)) before fresh)
              refl) in
      let same_actor : q.first_actor actor_id (note_use q c later next) ≡ ok actor =
        inserts.touches c later next actor_id ∙ actors actor_id ∙ known in
      (
        ap (λ (r : Outcome StorageError Bytes × Db). r.0) ran,
        ap
              (λ (r : Outcome StorageError Bytes × Db).
                (authenticate_agent_token q hash_token later raw r.1).0)
              ran
            ∙ authenticate_found later raw next c hit
            ∙ ap answer same_actor,
      )
