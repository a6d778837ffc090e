-- ===== src/Cache/Select.antt =====
-- What a SELECT of src/cache.rs returns, whatever order the engine returns rows in.
use sssd_oidc.Prelude.{◌≡◌, List, [], ◌∷◌, none, some}
use sssd_oidc.Prelude.Permutations.{perm-nil, perm-single}
use sssd_oidc.Outcome.{ok, err}
use sssd_oidc.Database.{Db, Statement, Engine, SqliteError}
use sssd_oidc.Cache.State.{sqlite}
use sssd_oidc.Cache.Queries.{select, next_row}

module _ (engine : Engine) (statement : Statement) (db : Db) {A : Type 0} where
  pub select_nil : engine.fault statement db ≡ none → select engine {A = A} statement db [] ≡ ok []
  unfolding select
  select_nil h = rw (h, select, perm-nil (engine.arrange-perm statement A []))

  pub select_single :
      (r : A) → engine.fault statement db ≡ none → select engine statement db (r ∷ []) ≡ ok (r ∷ [])
  unfolding select
  select_single r h = rw (h, select, perm-single (engine.arrange-perm statement A (r ∷ [])))

  pub next_row_nil :
      engine.fault statement db ≡ none → next_row engine {A = A} statement db [] ≡ ok none
  unfolding next_row
  next_row_nil h = rw (select_nil h)

  pub next_row_single :
      (r : A)
      → engine.fault statement db ≡ none
      → next_row engine statement db (r ∷ []) ≡ ok (some r)
  unfolding next_row
  next_row_single r h = rw (select_single r h)

  select_fails :
      (x : SqliteError) (rows : List A)
      → engine.fault statement db ≡ some x
      → select engine statement db rows ≡ err (sqlite x)
  unfolding select
  select_fails x rows h = rw (h, select)

  pub next_row_fails :
      (x : SqliteError) (rows : List A)
      → engine.fault statement db ≡ some x
      → next_row engine statement db rows ≡ err (sqlite x)
  unfolding next_row
  next_row_fails x rows h = rw (select_fails x rows h)
