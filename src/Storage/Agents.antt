-- ===== src/Storage/Agents.antt =====
-- internal/storage/actor_repo.go: actors, and the tokens with which agents authenticate. The hash
-- (SHA-256 in hexadecimal), the random bytes, the UUIDs and the clock are parameters.
pub mod Revoked
pub mod Issued
use mcp_webtools.Prelude.{
  Outcome, ok, err, ℕ, Option, none, some, List, [], ◌∷◌, ◌++◌, if◌then◌else◌, Bytes, codes,
  is_blank,
}
use mcp_webtools.Storage.{
  DbError, record_not_found, failed, StorageError, invalid_token, empty_display_name, no_randomness,
  database,
}

pub data ActorKind : Type 0 where
  agent human : ActorKind

pub record Actor : Type 0 where
  pub id : Bytes
  pub name : Bytes
  pub kind : ActorKind

pub record AgentCredential : Type 0 where
  pub id : Bytes
  pub actor_id : Bytes
  pub token_hash : Bytes
  pub last_used_at : Option ℕ
  pub revoked_at : Option ℕ

-- The statements on the two tables. `first_live` has the condition
-- `token_hash = ? AND revoked_at IS NULL`; `revoke_one` and `revoke_of` set `revoked_at` on the
-- rows not revoked yet, by the credential's and by the actor's ID.
pub record Accounts (Db : Type 0) : Type 0 where
  pub create_actor : Actor → Db → Outcome DbError Db
  pub create_credential : AgentCredential → Db → Outcome DbError Db
  pub first_live : Bytes → Db → Outcome DbError AgentCredential
  pub set_last_used : AgentCredential → ℕ → Db → Outcome DbError Db
  pub first_actor : Bytes → Db → Outcome DbError Actor
  pub agents : Db → Outcome DbError (List Actor)
  pub credentials_of : Bytes → Db → Outcome DbError (List AgentCredential)
  pub actors_in : List Bytes → Db → Outcome DbError (List Actor)
  pub live_actor_ids : Db → Outcome DbError (List Bytes)
  pub revoke_one : Bytes → ℕ → Db → Outcome DbError Db
  pub revoke_of : Bytes → ℕ → Db → Outcome DbError Db

abbrev pub token_prefix : Bytes
token_prefix = codes "wt_"

-- An error of the database, handed on as it is.
abbrev pub answer : {A : Type 0} → Outcome DbError A → Outcome StorageError A
answer (ok a) = ok a
answer (err e) = err database

-- A statement that changes the database, or leaves it on failure.
abbrev pub exec : {Db A : Type 0} → Outcome DbError Db → A → Db → Outcome StorageError A × Db
exec (ok next) a db = (ok a, next)
exec (err e) a db = (err database, db)

-- The later entries of a Go map win over the earlier ones.
unfoldable pub names_of : List Actor → List (Bytes × Bytes) → List (Bytes × Bytes)
names_of [] names = names
names_of (a ∷ actors) names = names_of actors ((a.id, a.name) ∷ names)

module _ {Db : Type 0} (q : Accounts Db) where
  unfoldable pub create_agent : Bytes → Bytes → Db → Outcome StorageError Actor × Db
  create_agent fresh_id display_name db =
      if is_blank display_name
      then (err empty_display_name, db)
      else let actor : Actor = record { id = fresh_id; name = display_name; kind = agent } in
        exec (q.create_actor actor db) actor db

  -- `random` is the text of 32 random bytes, or `none` where the source of randomness fails.
  unfoldable pub issue_agent_token :
      (Bytes → Bytes) → Bytes → Option Bytes → Bytes → Db → Outcome StorageError Bytes × Db
  issue_agent_token hash_token fresh_id random actor_id db = elim random [
    | none ↦ (err no_randomness, db)
    | some text ↦
        let raw = token_prefix ++ text in
        exec
          (q.create_credential
            (record {
              id = fresh_id;
              actor_id = actor_id;
              token_hash = hash_token raw;
              last_used_at = none;
              revoked_at = none;
            })
            db)
          raw db
  ]

  -- A failure to note the use only goes to the log.
  unfoldable pub note_use : AgentCredential → ℕ → Db → Db
  note_use cred now db = elim (q.set_last_used cred now db) [ ok next ↦ next | err e ↦ db ]

  unfoldable pub authenticate_agent_token :
      (Bytes → Bytes) → ℕ → Bytes → Db → Outcome StorageError Actor × Db
  unfolding note_use
  authenticate_agent_token hash_token now raw db = elim (q.first_live (hash_token raw) db) [
    | err record_not_found ↦ (err invalid_token, db)
    | err failed ↦ (err database, db)
    | ok cred ↦ let used = note_use cred now db in (answer (q.first_actor cred.actor_id used), used)
  ]

  unfoldable pub list_agents : Db → Outcome StorageError (List Actor)
  list_agents db = answer (q.agents db)

  unfoldable pub list_agent_credentials : Bytes → Db → Outcome StorageError (List AgentCredential)
  list_agent_credentials actor_id db = answer (q.credentials_of actor_id db)

  unfoldable pub actor_names_by_id : List Bytes → Db → Outcome StorageError (List (Bytes × Bytes))
  unfolding names_of
  actor_names_by_id [] db = ok []
  actor_names_by_id (id ∷ ids) db = elim (q.actors_in (id ∷ ids) db) [
    | err e ↦ err database
    | ok actors ↦ ok (names_of actors [])
  ]

  -- The set of IDs, as the list of those that map to true.
  unfoldable pub actors_with_active_token : Db → Outcome StorageError (List Bytes)
  actors_with_active_token db = answer (q.live_actor_ids db)

  unfoldable pub revoke_agent_token : Bytes → ℕ → Db → Outcome StorageError (Unit {0}) × Db
  revoke_agent_token credential_id now db = exec (q.revoke_one credential_id now db) tt db

  unfoldable pub revoke_all_agent_credentials :
      Bytes → ℕ → Db → Outcome StorageError (Unit {0}) × Db
  revoke_all_agent_credentials actor_id now db = exec (q.revoke_of actor_id now db) tt db
