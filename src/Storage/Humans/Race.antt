-- ===== src/Storage/Humans/Race.antt =====
-- Requests of the same human that run at the same time.
use mcp_webtools.Prelude.{
  ok, ℕ, ◌≡◌, sym, ap, subst, inl, inr, Option, some, ◌==◌, if◌then◌else◌, ==_iff, Bool-cases,
  Bytes,
}
use mcp_webtools.Storage.Agents.{Actor}
use mcp_webtools.Storage.Humans.{Claim, People, Pc, looking, done, advance}
use mcp_webtools.Storage.Humans.Linked.{Links, Knows, Knows-keep, link-advance, Knows-advance}

-- Any number of requests over one database, interleaved in any order.
pub record System (Db : Type 0) : Type 0 where
  pub db : Db
  pub pc : ℕ → Pc

abbrev pub set_pc : ℕ → Pc → (ℕ → Pc) → ℕ → Pc
set_pc i next pc j = if i == j then next else pc j

module _ {Db : Type 0} (q : People Db) (claim : ℕ → Claim) where
  abbrev pub step : ℕ → System Db → System Db
  step i s = record {
    db = (advance q (claim i) (s.pc i) s.db).1;
    pc = set_pc i (advance q (claim i) (s.pc i) s.db).0 s.pc;
  }

  -- The request `i` runs its next statement.
  pub data Step (s : System Db) : System Db → Type 0 where
    run : (i : ℕ) {t : System Db} → t ≡ step i s → Step s t

  pub data Reach (db : Db) : System Db → Type 0 where
    start : {s : System Db} → s ≡ record { db = db; pc = λ i. looking } → Reach db s
    later : {s t : System Db} → Reach db s → Step s t → Reach db t

  module _ (link : Bytes → Db → Option Bytes) (laws : Links q link) where
    -- Every request knows its subject's link.
    abbrev AllKnow : System Db → Type 0
    AllKnow s = (i : ℕ) → Knows (link (claim i).subject s.db) (s.pc i)

    step-AllKnow : (i : ℕ) (s : System Db) → AllKnow s → AllKnow (step i s)
    step-AllKnow i s all j = elim (Bool-cases (i == j)) [
      | inl here ↦
          let e : i ≡ j = (==_iff i j).0 here in
          rw (here, if◌then◌else◌)
            (subst
              (λ k.
                Knows (link (claim k).subject (advance q (claim i) (s.pc i) s.db).1)
                  (advance q (claim i) (s.pc i) s.db).0)
              e (Knows-advance q link laws (claim i) (s.pc i) s.db (all i)))
      | inr other ↦
          rw (other, if◌then◌else◌)
            (Knows-keep _ _ (s.pc j)
              (λ id. link-advance q link laws (claim i) (s.pc i) s.db (claim j).subject id) (all j))
    ]

    Reach-AllKnow : {db : Db} {s : System Db} → Reach db s → AllKnow s
    Reach-AllKnow (start e) = subst AllKnow (sym e) (λ j. tt)
    Reach-AllKnow (later {s} r (run i e)) =
        subst AllKnow (sym e) (step-AllKnow i s (Reach-AllKnow r))

    -- Where the statements do what SQL says of the link of a subject to its actor, however many
    -- requests run at the same time and in whatever order their statements interleave, two
    -- requests for the same subject that both end with an actor end with the same one.
    pub Reach-one_actor :
        {db : Db} {s : System Db} (i j : ℕ) (a b : Actor)
        → Reach db s
        → (claim i).subject ≡ (claim j).subject
        → s.pc i ≡ done (ok a)
        → s.pc j ≡ done (ok b)
        → a.id ≡ b.id
    Reach-one_actor {s = s} i j a b r same_subject ended_i ended_j =
        let know_i : link (claim i).subject s.db ≡ some a.id =
          subst (Knows (link (claim i).subject s.db)) ended_i (Reach-AllKnow r i) in
        let know_j : link (claim j).subject s.db ≡ some b.id =
          subst (Knows (link (claim j).subject s.db)) ended_j (Reach-AllKnow r j) in
        cc (ap (λ x. link x s.db) same_subject)
