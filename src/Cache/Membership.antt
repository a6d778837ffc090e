-- ===== src/Cache/Membership.antt =====
-- `get_groups_for_member` of src/cache.rs, by the tables.
use mathlib.Core.List.{Permᴰ}
use sssd_oidc.Prelude.{
  ℕ, ◌≡◌, refl, sym, ap, ◌∙◌, Bool, ◌&&◌, ◌||◌, subst, List, [], ◌∷◌, ◌++◌, ◌==◌, keep, any, map,
  arith, inl, inr, Option-cases,
}
use sssd_oidc.Text.{Str, str_eq}
use sssd_oidc.Outcome.{Outcome, ok, err, panic, ◌>>=◌}
use sssd_oidc.Exec.Success.{ok_inj}
use sssd_oidc.Model.{Group}
use sssd_oidc.Database.{
  GroupRow, MemberRow, Statement, Engine, is_fresh, belongs_to, joined, select_groups_for_member,
}
use sssd_oidc.Cache.State.{Cache}
use sssd_oidc.Cache.Queries.{
  select, get_group_members, with_members, load_groups, group_of_row, get_groups_for_member,
}

outcome_bind-ok :
    {E A B : Type 0} (r : Outcome E A) (f : A → Outcome E B) {b : B}
    → (r >>= f) ≡ ok b
    → (a : A) × (r ≡ ok a) × (f a ≡ ok b)
outcome_bind-ok (ok a) f h = (a, refl, h)
outcome_bind-ok (err e) f h = cc
outcome_bind-ok panic f h = cc

module _ {A : Type 0} (p : A → Bool) where
  any-perm : {xs ys : List A} → Permᴰ xs ys → any p xs ≡ any p ys
  unfolding any
  any-perm Permᴰ.nil = refl
  any-perm (Permᴰ.cons e q) = let same = ap p e in ground (arith, any-perm q)
  any-perm (Permᴰ.swap e f) = let one = ap p e in let other = ap p f in ground arith
  any-perm (Permᴰ.trans q r) = any-perm q ∙ any-perm r

  any-append : (xs ys : List A) → any p (xs ++ ys) ≡ (any p xs || any p ys)
  unfolding any
  any-append [] ys = refl
  any-append (x ∷ xs) ys = ground (arith, any-append xs ys)

  any-keep : (q : A → Bool) (xs : List A) → any p (keep q xs) ≡ any (λ x. p x && q x) xs
  unfolding any keep
  any-keep q [] = refl
  any-keep q (x ∷ xs) = ground (arith, any-keep q xs)

abbrev is_gid : ℕ → GroupRow → Bool
is_gid gid r = r.gid == gid

-- The member row of a group, by name.
abbrev pub has_member : List MemberRow → Str → GroupRow → Bool
has_member ms name g =
    any (λ (m : MemberRow). belongs_to g.external_id m && str_eq m.member_name name) ms

any-map_const :
    (p : GroupRow → Bool) (g : GroupRow) (q : MemberRow → Bool) (ms : List MemberRow)
    → any p (map (λ _. g) (keep q ms)) ≡ (p g && any q ms)
unfolding any keep
any-map_const p g q [] = ground arith
any-map_const p g q (m ∷ ms) = ground (arith, any-map_const p g q ms)

any-joined :
    (p : GroupRow → Bool) (gs : List GroupRow) (ms : List MemberRow) (name : Str)
    → any p (joined gs ms name) ≡ any (λ g. p g && has_member ms name g) gs
unfolding joined any
any-joined p [] ms name = refl
any-joined p (g ∷ gs) ms name =
    any-append p _ (joined gs ms name)
    ∙ ground (
      arith,
      any-joined p gs ms name,
      any-map_const p g (λ (m : MemberRow). belongs_to g.external_id m && str_eq m.member_name name)
          ms,
    )

module _ (engine : Engine) (cache : Cache) where
  with_members-gid :
      (group group' : Group) → with_members engine cache group ≡ ok group' → group'.gid ≡ group.gid
  unfolding with_members
  with_members-gid group group' h =
      let (members, _, e) =
        outcome_bind-ok (get_group_members engine cache group.external_id) _ h in
      cc

  load_groups-gid :
      (gid : ℕ) (rows : List GroupRow) {groups : List Group}
      → load_groups engine cache rows ≡ ok groups
      → any (λ (g : Group). g.gid == gid) groups ≡ any (is_gid gid) rows
  unfolding load_groups any
  load_groups-gid gid [] h = ap (any (λ (g : Group). g.gid == gid)) (sym (ok_inj _ _ h))
  load_groups-gid gid (row ∷ rows) h =
      let (group, e, h₁) = outcome_bind-ok (with_members engine cache (group_of_row row)) _ h in
      let (groups', e', h₂) = outcome_bind-ok (load_groups engine cache rows) _ h₁ in
      let same = with_members-gid _ group e in
      let rest = load_groups-gid gid rows e' in
      ap (any (λ (g : Group). g.gid == gid)) (sym (ok_inj _ _ h₂)) ∙ (rw (same, rest) refl)

  select-perm :
      (statement : Statement) (rows : List GroupRow) {xs : List GroupRow}
      → select engine statement cache.conn rows ≡ ok xs
      → Permᴰ xs rows
  unfolding select
  select-perm statement rows {xs} h = elim (Option-cases (engine.fault statement cache.conn)) [
    | inr (x, e) ↦ cc (rw (e, select) at h)
    | inl e ↦
        let same : engine.arrange statement GroupRow rows ≡ xs = cc (rw (e, select) at h) in
        subst (λ ys. Permᴰ ys rows) same (engine.arrange-perm statement GroupRow rows)
  ]

  -- If `get_groups_for_member` returns, a GID is among the groups exactly if a group row that is fresh
  -- by the statement's clock has it and a member row of that group has the name.
  pub get_groups_for_member-gid :
      (name : Str) (gid : ℕ) (groups : List Group)
      → get_groups_for_member engine cache name ≡ ok groups
      → any (λ (g : Group). g.gid == gid) groups
        ≡ any
            (λ (r : GroupRow).
              r.gid == gid
              && is_fresh
                  (engine.clock (select_groups_for_member name cache.ttl_seconds) cache.conn)
                  cache.ttl_seconds
                  r.cached_at
              && has_member cache.conn.group_members name r)
            cache.conn.gid_cache
  unfolding get_groups_for_member
  get_groups_for_member-gid name gid groups h =
      let statement = select_groups_for_member name cache.ttl_seconds in
      let fresh : GroupRow → Bool =
        λ g. is_fresh (engine.clock statement cache.conn) cache.ttl_seconds g.cached_at in
      let (rows, e, h₁) =
        outcome_bind-ok
          (select engine statement cache.conn
            (keep fresh (joined cache.conn.gid_cache cache.conn.group_members name)))
          _ h in
      load_groups-gid gid rows h₁
      ∙ any-perm (is_gid gid) (select-perm statement _ e)
      ∙ any-keep (is_gid gid) fresh (joined cache.conn.gid_cache cache.conn.group_members name)
      ∙ any-joined (λ g. is_gid gid g && fresh g) cache.conn.gid_cache cache.conn.group_members name
