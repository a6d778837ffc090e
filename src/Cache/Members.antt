-- ===== src/Cache/Members.antt =====
-- `store_group` of src/cache.rs and the member list: it succeeds exactly on lists without a repeated
-- name, and then the stored members are the list.
use sssd_oidc.Prelude.{
  ◌≡◌, ◌↔◌, refl, sym, ap, ◌∙◌, Bool, true, false, ◌||◌, List, [], ◌∷◌, ◌++◌, none, some, keep, any,
  map, All, arith, append_assoc, append-nil, inl, inr, All-map, All-map₂, Bool-cases,
}
use sssd_oidc.Text.{Str, str_eq, str_eq_refl, str_eq_symm}
use sssd_oidc.Outcome.{ok}
use sssd_oidc.Exec.Success.{bind-ok}
use sssd_oidc.Database.Rows.{IsUnique}
use sssd_oidc.Database.Insert.{run_insert_group_member-eq-some}
use sssd_oidc.Database.{
  GroupRow, MemberRow, Db, Statement, Engine, insert_group_member, clash_members, belongs_to,
  run_insert_group_member,
}
use sssd_oidc.Cache.State.{Cache}
use sssd_oidc.Cache.Updates.{run, execute, insert_members}
use sssd_oidc.Cache.Executes.{execute-ok, execute_done}

-- The names stored for a group, in the order of the rows.
unfoldable pub names_of : Str → List MemberRow → List Str
names_of external_id ms = map (λ (m : MemberRow). m.member_name) (keep (belongs_to external_id) ms)

abbrev member_row : Str → Str → MemberRow
member_row external_id member = record { group_external_id = external_id; member_name = member }

-- A row violates the primary key exactly when its name is stored for the group.
clash-names_of :
    (external_id member : Str) (ms : List MemberRow)
    → any (clash_members (member_row external_id member)) ms
      ≡ any (str_eq member) (names_of external_id ms)
unfolding any names_of keep
clash-names_of external_id member [] = refl
clash-names_of external_id member (m ∷ ms) =
    ground
      (arith, clash-names_of external_id member ms, str_eq_symm external_id m.group_external_id)

names_of-append :
    (external_id member : Str) (ms : List MemberRow)
    → names_of external_id (ms ++ member_row external_id member ∷ [])
      ≡ names_of external_id ms ++ member ∷ []
unfolding names_of keep
names_of-append external_id member [] = rw (str_eq_refl external_id)
names_of-append external_id member (m ∷ ms) = ground (arith, names_of-append external_id member ms)

-- No name is repeated, and none is among the earlier ones.
abbrev pub IsNew : List Str → List Str → Type 0
IsNew names members =
    All (λ (m : Str). any (str_eq m) names ≡ false) members × IsUnique str_eq members

any_snoc :
    (p : Str → Bool) (names : List Str) (member : Str)
    → any p (names ++ member ∷ []) ≡ (any p names || p member)
unfolding any
any_snoc p [] member = ground arith
any_snoc p (n ∷ names) member = ground (arith, any_snoc p names member)

-- Taking the first member off moves it to the earlier names.
IsNew-cons_iff :
    (names : List Str) (member : Str) (members : List Str)
    → IsNew names (member ∷ members)
      ↔ ((any (str_eq member) names ≡ false) × IsNew (names ++ member ∷ []) members)
IsNew-cons_iff names member members = (
  (λ h. (
    h.0.0,
    (
      All-map₂ _ _ _ members
          (λ m apart other. ground (arith, any_snoc (str_eq m) names member, str_eq_symm member m))
          h.0.1 h.1.0,
      h.1.1,
    ),
  )),
  (λ h. (
    (h.0, All-map _ _ members (λ m apart. ground (arith, any_snoc (str_eq m) names member)) h.1.0),
    (
      All-map _ _ members
          (λ m apart. ground (arith, any_snoc (str_eq m) names member, str_eq_symm member m)) h.1.0,
      h.1.1,
    ),
  )),
)

pub IsNew-nil : (members : List Str) → IsUnique str_eq members → IsNew [] members
unfolding any
IsNew-nil [] unique = (tt, tt)
IsNew-nil (m ∷ members) (apart, unique) = ((refl, (IsNew-nil members unique).0), (apart, unique))

module _ (engine : Engine) (works : (s : Statement) (db : Db) → engine.fault s db ≡ none)
    (external_id : Str) where
  -- The group of the rows is stored, if the engine asks.
  abbrev pub Anchored : Cache → Type 0
  Anchored cache =
      engine.foreign_keys ≡ true
      → any (λ (g : GroupRow). str_eq external_id g.external_id) cache.conn.gid_cache ≡ true

  abbrev pub with_rows : Cache → List MemberRow → Cache
  with_rows cache ms = record cache { conn = record cache.conn { group_members = ms } }

  names : Cache → List Str
  names cache = names_of external_id cache.conn.group_members

  accepted :
      (cache : Cache) (member : Str)
      → Anchored cache
      → any (str_eq member) (names_of external_id cache.conn.group_members) ≡ false
      → run_insert_group_member engine.foreign_keys external_id member cache.conn
        ≡ some (record cache.conn {
          group_members = cache.conn.group_members ++ member_row external_id member ∷ [];
        })
  unfolding run_insert_group_member
  accepted cache member anchored fresh =
      rw (clash-names_of external_id member cache.conn.group_members, fresh)
        (elim (Bool-cases engine.foreign_keys) [ inl on ↦ rw (on, anchored on) | inr off ↦ rw off ])

  insert_fresh :
      (cache : Cache) (member : Str)
      → Anchored cache
      → any (str_eq member) (names_of external_id cache.conn.group_members) ≡ false
      → execute engine (insert_group_member external_id member) cache
        ≡ (ok tt, with_rows cache (cache.conn.group_members ++ member_row external_id member ∷ []))
  unfolding run
  insert_fresh cache member anchored fresh =
      execute_done engine (insert_group_member external_id member) cache (works _ _)
        (accepted cache member anchored fresh)

  -- New names are all inserted, in order, and nothing else changes.
  pub insert_members_new :
      (members : List Str) (cache : Cache)
      → Anchored cache
      → IsNew (names_of external_id cache.conn.group_members) members
      → (rows : List MemberRow) × (insert_members engine external_id members cache
          ≡ (ok tt, with_rows cache rows))
        × (names_of external_id rows ≡ names_of external_id cache.conn.group_members ++ members)
  unfolding insert_members
  insert_members_new [] cache anchored new = (cache.conn.group_members, refl, sym (append-nil _))
  insert_members_new (member ∷ members) cache anchored new =
      let ms = cache.conn.group_members in
      let later = ms ++ member_row external_id member ∷ [] in
      let (fresh, rest) = (IsNew-cons_iff (names_of external_id ms) member members).0 new in
      let stored = names_of-append external_id member ms in
      let (rows, ran, listed) =
        insert_members_new members (with_rows cache later) anchored (rw stored rest) in
      (
        rows,
        rw (insert_fresh cache member anchored fresh) ran,
        listed ∙ rw stored (append_assoc (names_of external_id ms) (member ∷ []) members),
      )

  -- If all were inserted, they were new.
  pub insert_members-IsNew :
      (members : List Str) (cache cache' : Cache)
      → insert_members engine external_id members cache ≡ (ok tt, cache')
      → IsNew (names_of external_id cache.conn.group_members) members
  unfolding insert_members
  insert_members-IsNew [] cache cache' h = (tt, tt)
  insert_members-IsNew (member ∷ members) cache cache' h =
      let ms = cache.conn.group_members in
      let (_, first_ran, rest_ran) =
        bind-ok (execute engine (insert_group_member external_id member)) _ cache h in
      let (db, ran, left) =
        execute-ok engine (insert_group_member external_id member) cache first_ran in
      let (fresh, _, grown) =
        run_insert_group_member-eq-some engine.foreign_keys external_id member cache.conn db
          (unfold run in ran) in
      let rest = insert_members-IsNew members _ cache' rest_ran in
      let stored = names_of-append external_id member ms in
      let rows : (execute engine (insert_group_member external_id member)
            cache).1.conn.group_members
          ≡ ms ++ member_row external_id member ∷ [] =
        ap (λ (c : Cache). c.conn.group_members) left ∙ ap (λ (d : Db). d.group_members) grown in
      (IsNew-cons_iff (names_of external_id ms) member members).1
        ((sym (clash-names_of external_id member ms) ∙ fresh), rw (← stored, ← rows) rest)
