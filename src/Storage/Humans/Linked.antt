-- ===== src/Storage/Humans/Linked.antt =====
-- What one request for a human's actor knows of the link of its subject.
use mcp_webtools.Prelude.{
  ok, err, ◌≡◌, ◌∙◌, ◌⊎◌, inl, inr, true, false, Option, none, some, arith, if◌then◌else◌, Bytes,
  same, eq_of_same, same_refl, Outcome-cases,
}
use mcp_webtools.Storage.{DbError, record_not_found, failed}
use mcp_webtools.Storage.Agents.{Actor, human}
use mcp_webtools.Storage.Humans.{
  UserIdentity, Claim, People, Pc, looking, creating, rereading, updating, reading, done, advance,
  create_linked, look,
}

-- What the statements say of `link`, the ID of the actor to which a subject is linked, if any.
pub record Links {Db : Type 0} (q : People Db) (link : Bytes → Db → Option Bytes) : Type 0 where
  pub finds :
      (s : Bytes) (db : Db) (i : UserIdentity)
      → q.first_identity s db ≡ ok i
      → link s db ≡ some i.actor_id
  pub updates :
      (i : UserIdentity) (role : Bytes) (db next : Db)
      → q.update_role i role db ≡ ok next
      → (s : Bytes) → link s next ≡ link s db
  pub claims :
      (i : UserIdentity) (db next : Db)
      → q.insert_identity i db ≡ ok (true, next)
      → (link i.keycloak_subject db ≡ none)
        × ((s : Bytes)
            → link s next ≡ (if same i.keycloak_subject s then some i.actor_id else link s db))
  pub conflicts :
      (i : UserIdentity) (db next : Db)
      → q.insert_identity i db ≡ ok (false, next)
      → (s : Bytes) → link s next ≡ link s db
  pub adds :
      (a : Actor) (db next : Db)
      → q.insert_actor a db ≡ ok next
      → (s : Bytes) → link s next ≡ link s db
  pub reads : (id : Bytes) (db : Db) (a : Actor) → q.first_actor id db ≡ ok a → a.id ≡ id

-- What a request knows of its subject's link.
abbrev pub Knows : Option Bytes → Pc → Type 0
Knows l (updating i) = l ≡ some i.actor_id
Knows l (reading id) = l ≡ some id
Knows l (done (ok a)) = l ≡ some a.id
Knows l _ = Unit {0}

pub Knows-keep :
    (l l' : Option Bytes) (pc : Pc)
    → ((id : Bytes) → l ≡ some id → l' ≡ some id)
    → Knows l pc
    → Knows l' pc
Knows-keep l l' looking keep h = tt
Knows-keep l l' creating keep h = tt
Knows-keep l l' rereading keep h = tt
Knows-keep l l' (updating i) keep h = keep i.actor_id h
Knows-keep l l' (reading id) keep h = keep id h
Knows-keep l l' (done (ok a)) keep h = keep a.id h
Knows-keep l l' (done (err e)) keep h = tt

module _ {Db : Type 0} (q : People Db) where
  abbrev claimed : Claim → UserIdentity
  claimed c = record { actor_id = c.new_actor_id; keycloak_subject = c.subject; role = c.role }

  -- The ends of the transaction: it fails, loses the race, or makes the identity and its actor.
  create_cases :
      (c : Claim) (db : Db)
      → ((e : DbError) × (create_linked q c db ≡ (done (err e), db)))
        ⊎ ((next : Db) × (q.insert_identity (claimed c) db ≡ ok (false, next))
            × (create_linked q c db ≡ (rereading, next)))
        ⊎ ((linked : Db) × (next : Db) × (a : Actor) × (q.insert_identity (claimed c) db
              ≡ ok (true, linked))
            × (q.insert_actor a linked ≡ ok next)
            × (create_linked q c db ≡ (reading c.new_actor_id, next)))
  unfolding create_linked
  create_cases c db = elim (Outcome-cases (q.insert_identity (claimed c) db)) [
    | inl (e, bad) ↦ inl (e, ground (arith, bad))
    | inr ((false, next), lost) ↦ inr (inl (next, lost, ground (arith, lost)))
    | inr ((true, linked), won) ↦
        let a : Actor = record { id = c.new_actor_id; name = c.display_name; kind = human } in
        elim (Outcome-cases (q.insert_actor a linked)) [
          | inl (e, bad) ↦ inl (e, ground (arith, won, bad))
          | inr (next, good) ↦ inr (inr (linked, next, a, won, good, ground (arith, won, good)))
        ]
  ]

module _ {Db : Type 0} (q : People Db) (link : Bytes → Db → Option Bytes)
    (laws : Links q link) where
  link-create :
      (c : Claim) (db : Db) (s id : Bytes)
      → link s db ≡ some id
      → link s (create_linked q c db).1 ≡ some id
  link-create c db s id h = elim (create_cases q c db) [
    | inl (e, r) ↦ rw r h
    | inr (inl (next, lost, r)) ↦ rw r (laws.conflicts (claimed q c) db next lost s ∙ h)
    | inr (inr (linked, next, a, won, made, r)) ↦
        let (free, now) = laws.claims (claimed q c) db linked won in
        rw r
          (laws.adds a linked next made s ∙ ground (arith, now s, free, h, eq_of_same c.subject s))
  ]

  Knows-create :
      (c : Claim) (db : Db)
      → Knows (link c.subject (create_linked q c db).1) (create_linked q c db).0
  Knows-create c db = elim (create_cases q c db) [
    | inl (e, r) ↦ rw r tt
    | inr (inl (next, lost, r)) ↦ rw r tt
    | inr (inr (linked, next, a, won, made, r)) ↦
        let (free, now) = laws.claims (claimed q c) db linked won in
        rw r (
          laws.adds a linked next made c.subject
          ∙ ground (arith, now c.subject, same_refl c.subject))
  ]

  -- A link that is there stays.
  pub link-advance :
      (c : Claim) (pc : Pc) (db : Db) (s id : Bytes)
      → link s db ≡ some id
      → link s (advance q c pc db).1 ≡ some id
  unfolding advance create_linked
  link-advance c looking db s id h = h
  link-advance c rereading db s id h = h
  link-advance c (reading i) db s id h = h
  link-advance c (done r) db s id h = h
  link-advance c (updating i) db s id h = elim (Outcome-cases (q.update_role i c.role db)) [
    | inl (e, bad) ↦ ground (arith, bad)
    | inr (next, good) ↦ ground (arith, good, laws.updates i c.role db next good s)
  ]
  link-advance c creating db s id h = link-create c db s id h

  pub Knows-advance :
      (c : Claim) (pc : Pc) (db : Db)
      → Knows (link c.subject db) pc
      → Knows (link c.subject (advance q c pc db).1) (advance q c pc db).0
  unfolding advance create_linked look
  Knows-advance c looking db h = elim (Outcome-cases (q.first_identity c.subject db)) [
    | inl (record_not_found, bad) ↦ ground (arith, bad)
    | inl (failed, bad) ↦ ground (arith, bad)
    | inr (i, good) ↦ ground (arith, good, laws.finds c.subject db i good)
  ]
  Knows-advance c rereading db h = elim (Outcome-cases (q.first_identity c.subject db)) [
    | inl (e, bad) ↦ ground (arith, bad)
    | inr (i, good) ↦ ground (arith, good, laws.finds c.subject db i good)
  ]
  Knows-advance c (reading id) db h = elim (Outcome-cases (q.first_actor id db)) [
    | inl (e, bad) ↦ ground (arith, bad)
    | inr (a, good) ↦ ground (arith, good, laws.reads id db a good)
  ]
  Knows-advance c (done r) db h = h
  Knows-advance c (updating i) db h = elim (Outcome-cases (q.update_role i c.role db)) [
    | inl (e, bad) ↦ ground (arith, bad)
    | inr (next, good) ↦ ground (arith, good, laws.updates i c.role db next good c.subject)
  ]
  Knows-advance c creating db h = Knows-create c db
