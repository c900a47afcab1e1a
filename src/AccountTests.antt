-- ===== src/AccountTests.antt =====
-- Runs of the tokens, and of two first requests of one human, on tables of a few rows.
use mcp_webtools.Prelude.{
  Outcome, ok, err, ℕ, ◌≡◌, refl, sym, inl, inr, Bool, true, false, Option, none, some, List, [],
  ◌∷◌, ◌++◌, arith, if◌then◌else◌, Option-cases, Bytes, codes, same,
}
use mathlib.Core.List.{append-nil}
use mcp_webtools.Storage.{DbError, record_not_found}
use mcp_webtools.Storage.Agents.{
  Actor, agent, AgentCredential, Accounts, issue_agent_token, authenticate_agent_token, note_use,
}
use mcp_webtools.Storage.Agents.Revoked.{find_live, found, revoke_rows, Keeps}
use mcp_webtools.Storage.Agents.Issued.{Inserts}
use mcp_webtools.Storage.Humans.{UserIdentity, Claim, People, looking, advance, create_linked, look}
use mcp_webtools.Storage.Humans.Linked.{Links}
use mcp_webtools.Storage.Humans.Race.{System, run, Reach, start, later, step, Reach-one_actor}

program : Unit {0}
unfolding find_live revoke_rows note_use issue_agent_token authenticate_agent_token advance
    create_linked look
program = tt

abbrev pub accounts : Accounts (List AgentCredential)
accounts = record {
  create_actor = λ a db. ok db;
  create_credential = λ c db. ok (db ++ c ∷ []);
  first_live = λ h db. found (find_live h db);
  set_last_used = λ c now db. ok db;
  first_actor = λ id db. ok (record { id = id; name = id; kind = agent });
  agents = λ db. ok [];
  credentials_of = λ a db. ok db;
  actors_in = λ ids db. ok [];
  live_actor_ids = λ db. ok [];
  revoke_one = λ c now db. ok db;
  revoke_of = λ a now db. ok (revoke_rows a now db);
}

abbrev pub accounts-Keeps : Keeps accounts (λ db. db)
accounts-Keeps = record {
  finds = λ h db. refl;
  revokes = λ a now db. (revoke_rows a now db, refl, refl);
}

abbrev pub accounts-Inserts : Inserts accounts (λ db. db)
unfolding note_use
accounts-Inserts = record {
  creates = λ c db fresh. (db ++ c ∷ [], db, [], refl, sym (append-nil db), refl, λ id. refl);
  touches = λ c now db id. refl;
}

abbrev old_cred : AgentCredential
old_cred = record {
  id = codes "c";
  actor_id = codes "b";
  token_hash = codes "h";
  last_used_at = none;
  revoked_at = none;
}

-- The identities, each subject once.
unfoldable identity_in : Bytes → List UserIdentity → Option UserIdentity
identity_in s [] = none
identity_in s (i ∷ t) =
    let rest = identity_in s t in if same i.keycloak_subject s then some i else rest

abbrev linked_in : Option UserIdentity → Option Bytes
linked_in none = none
linked_in (some i) = some i.actor_id

abbrev found_in : Option UserIdentity → Outcome DbError UserIdentity
found_in none = err record_not_found
found_in (some i) = ok i

abbrev put_in :
    UserIdentity
    → List UserIdentity
    → Option UserIdentity
    → Outcome DbError (Bool × List UserIdentity)
put_in i db none = ok (true, i ∷ db)
put_in i db (some j) = ok (false, db)

abbrev people : People (List UserIdentity)
people = record {
  first_identity = λ s db. found_in (identity_in s db);
  update_role = λ i role db. ok db;
  insert_identity = λ i db. put_in i db (identity_in i.keycloak_subject db);
  insert_actor = λ a db. ok db;
  first_actor = λ id db. ok (record { id = id; name = id; kind = agent });
}

abbrev link : Bytes → List UserIdentity → Option Bytes
link s db = linked_in (identity_in s db)

people-Links : Links people link
unfolding identity_in
people-Links = record {
  finds = λ s db i h. elim (Option-cases (identity_in s db)) [
    | inl gone ↦ absurd (ground (arith, gone, h))
    | inr (j, here) ↦ ground (arith, here, h)
  ];
  updates = λ i role db next h s. ground (arith, h);
  claims = λ i db next h. elim (Option-cases (identity_in i.keycloak_subject db)) [
    | inl gone ↦
        let e : i ∷ db ≡ next = grind (arith, gone, h) in
        (ground (arith, gone), λ s. ground (arith, sym e))
    | inr (j, here) ↦ absurd (grind (arith, here, h))
  ];
  conflicts = λ i db next h s. elim (Option-cases (identity_in i.keycloak_subject db)) [
    | inl gone ↦ absurd (grind (arith, gone, h))
    | inr (j, here) ↦ grind (arith, here, h)
  ];
  adds = λ a db next h s. ground (arith, h);
  reads = λ id db a h. ground (arith, h);
}

-- Two requests of one human, each with a new UUID of its own.
abbrev claims : ℕ → Claim
claims i = record {
  subject = codes "s";
  display_name = codes "Sam";
  role = codes "viewer";
  new_actor_id = i ∷ [];
}

abbrev sys : List ℕ → System (List UserIdentity)
sys [] = record { db = []; pc = λ i. looking }
sys (i ∷ is) = step people claims i (sys is)

-- Both look, then both create: the first wins. The latest statement is the first of the list.
abbrev turns : List ℕ
turns = 1 ∷ 0 ∷ 1 ∷ 1 ∷ 0 ∷ 1 ∷ 0 ∷ []

abbrev reach_all : (is : List ℕ) → Reach people claims [] (sys is)
reach_all [] = start refl
reach_all (i ∷ is) = later (reach_all is) (run i refl)

abbrev winner : Actor
winner = record { id = 0 ∷ []; name = 0 ∷ []; kind = agent }

Reach-one_actor_example : winner.id ≡ winner.id
unfolding program same identity_in
Reach-one_actor_example =
    Reach-one_actor people claims link people-Links 0 1 winner winner (reach_all turns) refl refl
      refl
