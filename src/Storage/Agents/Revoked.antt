-- ===== src/Storage/Agents/Revoked.antt =====
-- Which tokens still authenticate after an agent's credentials are revoked.
use mcp_webtools.Prelude.{
  Outcome, ok, err, ℕ, ◌≡◌, refl, sym, ap, ◌∙◌, ◌≢◌, inl, inr, Bool, true, false, ◌&&◌, Option,
  none, some, List, [], ◌∷◌, arith, if◌then◌else◌, Bool-cases, Option-cases, Bytes, same,
  eq_of_same, same_iff,
}
use mcp_webtools.Storage.{DbError, record_not_found, invalid_token}
use mcp_webtools.Storage.History.Rows.{All}
use mcp_webtools.Storage.Agents.{
  AgentCredential, Accounts, exec, authenticate_agent_token, revoke_all_agent_credentials,
}

abbrev pub is_live : AgentCredential → Bool
is_live c = elim c.revoked_at [ none ↦ true | some t ↦ false ]

unfoldable pub find_live : Bytes → List AgentCredential → Option AgentCredential
find_live h [] = none
find_live h (c ∷ cs) =
    let rest = find_live h cs in if same c.token_hash h && is_live c then some c else rest

abbrev pub revoke : Bytes → ℕ → AgentCredential → AgentCredential
revoke a now c = if same c.actor_id a && is_live c then record c { revoked_at = some now } else c

unfoldable pub revoke_rows : Bytes → ℕ → List AgentCredential → List AgentCredential
revoke_rows a now [] = []
revoke_rows a now (c ∷ cs) = revoke a now c ∷ revoke_rows a now cs

-- `token_hash` has a unique index.
abbrev pub IsUnique : List AgentCredential → Type 0
IsUnique [] = Unit
IsUnique (c ∷ cs) = All (λ d. same d.token_hash c.token_hash ≡ false) cs × IsUnique cs

abbrev pub found : Option AgentCredential → Outcome DbError AgentCredential
found none = err record_not_found
found (some c) = ok c

-- The statements do what SQL says of them to the credentials that the table holds.
pub record Keeps {Db : Type 0} (q : Accounts Db) (rows : Db → List AgentCredential) : Type 0 where
  pub finds : (h : Bytes) (db : Db) → q.first_live h db ≡ found (find_live h (rows db))
  pub revokes :
      (a : Bytes) (now : ℕ) (db : Db)
      → (next : Db) × (q.revoke_of a now db ≡ ok next) × (rows next ≡ revoke_rows a now (rows db))

find_absent :
    (h : Bytes) (c : AgentCredential) (cs : List AgentCredential)
    → All (λ d. same d.token_hash c.token_hash ≡ false) cs
    → c.token_hash ≡ h
    → find_live h cs ≡ none
unfolding find_live
find_absent h c [] all e = refl
find_absent h c (d ∷ cs) all e =
    let rest = find_absent h c cs all.1 e in
    let other : same d.token_hash h ≡ false = ap (same d.token_hash) (sym e) ∙ all.0 in
    ground (arith, rest, other)

find_absent_revoked :
    (h a : Bytes) (now : ℕ) (c : AgentCredential) (cs : List AgentCredential)
    → All (λ d. same d.token_hash c.token_hash ≡ false) cs
    → c.token_hash ≡ h
    → find_live h (revoke_rows a now cs) ≡ none
unfolding find_live revoke_rows
find_absent_revoked h a now c [] all e = refl
find_absent_revoked h a now c (d ∷ cs) all e =
    let rest = find_absent_revoked h a now c cs all.1 e in
    let other : same d.token_hash h ≡ false = ap (same d.token_hash) (sym e) ∙ all.0 in
    ground (arith, rest, other)

abbrev pub unless_of : Bytes → Option AgentCredential → Option AgentCredential
unless_of a none = none
unless_of a (some c) = if same c.actor_id a then none else some c

-- Revoking takes the actor's credentials out of the search, and no other.
pub find-revoke_rows :
    (h a : Bytes) (now : ℕ) (cs : List AgentCredential)
    → IsUnique cs
    → find_live h (revoke_rows a now cs) ≡ unless_of a (find_live h cs)
unfolding find_live revoke_rows
find-revoke_rows h a now [] u = refl
find-revoke_rows h a now (c ∷ cs) u =
    let rest = find-revoke_rows h a now cs u.1 in
    elim (Bool-cases (same c.token_hash h)) [
      | inr other ↦ ground (arith, other, rest)
      | inl hit ↦
          let gone = find_absent_revoked h a now c cs u.0 (eq_of_same c.token_hash h hit) in
          let absent = find_absent h c cs u.0 (eq_of_same c.token_hash h hit) in
          ground (arith, hit, gone, absent)
    ]

module _ {Db : Type 0} (q : Accounts Db) (rows : Db → List AgentCredential) (keeps : Keeps q rows)
    (a : Bytes) (now : ℕ) (db : Db) (unique : IsUnique (rows db)) where
  -- The database after the actor's credentials are revoked.
  abbrev pub after_revoking : Db
  after_revoking = (revoke_all_agent_credentials q a now db).1

  first_live-revoked :
      (h : Bytes) → q.first_live h after_revoking ≡ found (unless_of a (find_live h (rows db)))
  unfolding revoke_all_agent_credentials
  first_live-revoked h =
      let (next, done, table) = keeps.revokes a now db in
      let e : after_revoking ≡ next =
        ap (λ (o : Outcome DbError Db). (exec {A = Unit {0}} o tt db).1) done in
      ap (q.first_live h) e
      ∙ keeps.finds h next
      ∙ ap (λ t. found (find_live h t)) table
      ∙ ap found (find-revoke_rows h a now (rows db) unique)

  find_live-first :
      (h : Bytes) (c : AgentCredential) → q.first_live h db ≡ ok c → find_live h (rows db) ≡ some c
  find_live-first h c live =
      let e : found (find_live h (rows db)) ≡ ok c = sym (keeps.finds h db) ∙ live in
      elim (Option-cases (find_live h (rows db))) [
        | inl missing ↦ absurd (cc)
        | inr (d, hit) ↦ ground (arith, e, hit)
      ]

  refused :
      (hash_token : Bytes → Bytes) (later : ℕ) (raw : Bytes) (next : Db)
      → q.first_live (hash_token raw) next ≡ err record_not_found
      → authenticate_agent_token q hash_token later raw next ≡ (err invalid_token, next)
  unfolding authenticate_agent_token
  refused hash_token later raw next h = ground (arith, h)

  -- Where the statements do what SQL says of them and hashes are unique, after an agent's
  -- credentials are revoked, a token that authenticated it is refused as invalid, with the
  -- database unchanged, and a token of another actor is still found.
  pub revoke_all-authenticate :
      (hash_token : Bytes → Bytes) (later : ℕ) (raw : Bytes) (c : AgentCredential)
      → q.first_live (hash_token raw) db ≡ ok c
      → ((c.actor_id ≡ a)
          → authenticate_agent_token q hash_token later raw after_revoking
            ≡ (err invalid_token, after_revoking))
        × ((c.actor_id ≢ a) → q.first_live (hash_token raw) after_revoking ≡ ok c)
  revoke_all-authenticate hash_token later raw c live =
      let hit = find_live-first (hash_token raw) c live in
      let lookup_after =
        first_live-revoked (hash_token raw) ∙ ap (λ o. found (unless_of a o)) hit in
      (
        λ own.
            refused hash_token later raw after_revoking
              (lookup_after ∙ ground (arith, (same_iff c.actor_id a).1 own)),
        λ other. lookup_after ∙ ground (arith, (same_iff c.actor_id a).0, other),
      )
