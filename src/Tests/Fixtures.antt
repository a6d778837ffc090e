-- ===== src/Tests/Fixtures.antt =====
-- Concrete instances of what the code takes from outside: a database engine, a hash function.
use mathlib.Core.List.Permᴰ
use sssd_oidc.Prelude.{ℕ, true, [], ◌∷◌, Option, none, some, arith}
use sssd_oidc.Text.{Str, ascii}
use sssd_oidc.Model.{User, Group}
use sssd_oidc.Mapping.Range.{IsRange}
use sssd_oidc.Database.{Engine, Db}
use sssd_oidc.Cache.State.{Cache}

-- An engine with a stopped clock that refuses nothing and keeps the order of rows.
abbrev pub engine_at : ℕ → Engine
engine_at now = record {
  clock = λ s db. now;
  fault = λ s db. none;
  foreign_keys = true;
  arrange = λ s A rows. rows;
  arrange-perm = λ s A rows. Permᴰ.refl rows;
}

-- A stand-in for the hash function: every id hashes to 7.
abbrev pub hash_7 : Str → ℕ → Option ℕ
hash_7 id seed = some 7

abbrev pub empty_db : Db
empty_db = record { uid_cache = []; gid_cache = []; group_members = [] }

abbrev pub empty_cache : Cache
empty_cache = record { conn = empty_db; ttl_seconds = 60 }

abbrev pub alice : User
alice = record {
  external_id = ascii "a1";
  name = ascii "alice";
  uid = 1007;
  gid = 1007;
  gecos = ascii "Alice";
  home = ascii "/home/alice";
  shell = ascii "/bin/bash";
  active = true;
}

abbrev pub staff : Group
staff = record {
  external_id = ascii "g1";
  name = ascii "staff";
  gid = 1003;
  members = ascii "alice" ∷ ascii "bob" ∷ [];
}

pub IsRange-1000 : IsRange 1000 10
IsRange-1000 = record { nonempty = omega arith; fits = omega arith; no_wrap = omega arith }
