-- ===== src/Storage/Humans.antt =====
-- internal/storage/human_repo.go: the actor of a human, made at the first request. Requests run at
-- the same time, so the function is a machine that makes one statement a step.
pub mod Linked
pub mod Race
use mcp_webtools.Prelude.{
  Outcome, ok, err, ℕ, zero, suc, Bool, true, false, if◌then◌else◌, Bytes, same,
}
use mcp_webtools.Storage.{DbError, record_not_found, failed}
use mcp_webtools.Storage.Agents.{Actor, human}

pub record UserIdentity : Type 0 where
  pub actor_id : Bytes
  pub keycloak_subject : Bytes
  pub role : Bytes

-- What a request asks for: the provider's claims, and the UUID that `uuid.NewString` will give.
pub record Claim : Type 0 where
  pub subject : Bytes
  pub display_name : Bytes
  pub role : Bytes
  pub new_actor_id : Bytes

-- The statements. `claim_subject` is the transaction: the INSERT of the identity that does nothing on
-- a conflict of subjects, and only if it took effect the INSERT of the actor; it says whether it did.
pub record People (Db : Type 0) : Type 0 where
  pub first_identity : Bytes → Db → Outcome DbError UserIdentity
  pub update_role : UserIdentity → Bytes → Db → Outcome DbError Db
  pub insert_identity : UserIdentity → Db → Outcome DbError (Bool × Db)
  pub insert_actor : Actor → Db → Outcome DbError Db
  pub first_actor : Bytes → Db → Outcome DbError Actor

-- Where a request stands: before the statement that it runs next, or at its end.
pub data Pc : Type 0 where
  looking creating rereading : Pc
  updating : UserIdentity → Pc
  reading : Bytes → Pc
  done : Outcome DbError Actor → Pc

module _ {Db : Type 0} (q : People Db) where
  -- The transaction commits as one: an actor that cannot be inserted takes the identity back.
  unfoldable pub create_linked : Claim → Db → Pc × Db
  create_linked c db =
      elim (q.insert_identity
        (record { actor_id = c.new_actor_id; keycloak_subject = c.subject; role = c.role }) db) [
          | err e ↦ (done (err e), db)
          | ok (won, linked) ↦ elim won [
            | false ↦ (rereading, linked)
            | true ↦
                elim (q.insert_actor
                  (record { id = c.new_actor_id; name = c.display_name; kind = human }) linked) [
                    | err e ↦ (done (err e), db)
                    | ok next ↦ (reading c.new_actor_id, next)
                  ]
          ]
        ]

  unfoldable pub look : Claim → Db → Pc
  look c db = elim (q.first_identity c.subject db) [
    | ok i ↦ if same i.role c.role then reading i.actor_id else updating i
    | err record_not_found ↦ creating
    | err failed ↦ done (err failed)
  ]

  unfoldable pub advance : Claim → Pc → Db → Pc × Db
  unfolding create_linked look
  advance c looking db = (look c db, db)
  advance c (updating i) db = elim (q.update_role i c.role db) [
    | err e ↦ (done (err e), db)
    | ok next ↦ (reading i.actor_id, next)
  ]
  advance c creating db = create_linked c db
  advance c rereading db = (
    elim (q.first_identity c.subject db) [ err e ↦ done (err e) | ok i ↦ reading i.actor_id ],
    db,
  )
  advance c (reading id) db = (done (q.first_actor id db), db)
  advance c (done r) db = (done r, db)

  unfoldable pub advance_times : ℕ → Claim → Pc → Db → Pc × Db
  advance_times zero c pc db = (pc, db)
  advance_times (suc n) c pc db = let (next, db1) = advance c pc db in advance_times n c next db1

  abbrev pub answer_of : Pc → Outcome DbError Actor
  answer_of (done r) = r
  answer_of _ = err failed

  -- A request that nothing interrupts.
  unfoldable pub get_or_create_human_actor : Claim → Db → Outcome DbError Actor × Db
  unfolding advance advance_times
  get_or_create_human_actor c db =
      let (pc, next) = advance_times 4 c looking db in (answer_of pc, next)
