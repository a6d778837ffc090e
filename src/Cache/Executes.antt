-- ===== src/Cache/Executes.antt =====
-- `execute` of src/cache.rs: what a statement that succeeds has done, and one that fails.
use sssd_oidc.Prelude.{◌≡◌, refl, some, none, inl, inr, Option-cases, ◌⊎◌}
use sssd_oidc.Outcome.{ok, err}
use sssd_oidc.Database.{Db, Statement, Engine, SqliteError, constraint_violation}
use sssd_oidc.Cache.State.{Cache, sqlite}
use sssd_oidc.Cache.Updates.{execute, run}

module _ (engine : Engine) (statement : Statement) (cache : Cache) where
  pub execute-ok :
      {cache' : Cache}
      → execute engine statement cache ≡ (ok tt, cache')
      → (db : Db) × (run engine statement cache.conn ≡ some db)
        × (cache' ≡ record cache { conn = db })
  unfolding execute
  execute-ok h = elim (Option-cases (engine.fault statement cache.conn)) [
    | inr (x, e) ↦ cc (rw (e, execute) at h)
    | inl e ↦ elim (Option-cases (run engine statement cache.conn)) [
      | inl f ↦ cc (rw (e, execute, f) at h)
      | inr (db, f) ↦ (db, f, cc (rw (e, execute, f) at h))
    ]
  ]

  pub execute_done :
      {db : Db}
      → engine.fault statement cache.conn ≡ none
      → run engine statement cache.conn ≡ some db
      → execute engine statement cache ≡ (ok tt, record cache { conn = db })
  unfolding execute
  execute_done e f = rw (e, execute, f)

  -- A statement fails and changes nothing, or has its effect.
  pub execute-result :
      ((e : SqliteError) × (execute engine statement cache ≡ (err (sqlite e), cache)))
      ⊎ ((db : Db) × (run engine statement cache.conn ≡ some db)
          × (execute engine statement cache ≡ (ok tt, record cache { conn = db })))
  unfolding execute
  execute-result = elim (Option-cases (engine.fault statement cache.conn)) [
    | inr (x, e) ↦ inl (x, rw (e, execute) refl)
    | inl e ↦ elim (Option-cases (run engine statement cache.conn)) [
      | inl f ↦ inl (constraint_violation, rw (e, execute, f) refl)
      | inr (db, f) ↦ inr (db, f, rw (e, execute, f) refl)
    ]
  ]

  -- A statement that runs leaves one of two tables: the old ones, or those of its effect.
  pub execute-cases :
      ((execute engine statement cache).1 ≡ cache)
      ⊎ ((db : Db) × (run engine statement cache.conn ≡ some db)
          × ((execute engine statement cache).1 ≡ record cache { conn = db }))
  unfolding execute
  execute-cases = elim (Option-cases (engine.fault statement cache.conn)) [
    | inr (x, e) ↦ inl (rw (e, execute))
    | inl e ↦ elim (Option-cases (run engine statement cache.conn)) [
      | inl f ↦ inl (rw (e, execute, f))
      | inr (db, f) ↦ inr (db, f, rw (e, execute, f))
    ]
  ]
