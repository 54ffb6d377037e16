-- ===== src/Connections/Sessions.antt =====
-- What a session remembers.
use guardmcp.Prelude.{String, ◌≡◌, refl, ap, ◌∙◌, true, false, Option, none, some, ◌===◌}
use guardmcp.Dict.{Dict, lookup, insert, lookup-insert, lookup-insert_self}
use guardmcp.Connections.{
  ConnectionEntry, Session, switch, remembered, get_active_database, copied, set_active_database,
}

-- The session on a registered connection, whose active database is then set.
abbrev pub visit : String → Option String → Session → Session
visit name db s = set_active_database db (switch name s).1

module _ (a : String) (e : ConnectionEntry) (s : Session)
    (known : lookup a s.registry ≡ some e) where
  switch_known : switch a s ≡ (true, record s { active = a })
  unfolding switch
  switch_known = rw known refl

  visit_known :
      (db : Option String)
      → visit a db s ≡ record s { active = a; databases = some (insert a db (copied s.databases)) }
  unfolding set_active_database
  visit_known db = ap (λ r. set_active_database db r.1) switch_known ∙ set_known db
    where
      set_known :
          (db : Option String)
          → set_active_database db (record s { active = a })
            ≡ record s { active = a; databases = some (insert a db (copied s.databases)) }
      set_known db = rw known refl

remembered-some :
    (a : String) (x : Option String) (d : Dict (Option String))
    → lookup a d ≡ some x
    → remembered a (some d) ≡ x
remembered-some a x d e = ap (λ r. elim r [ none ↦ none | some db ↦ db ]) e

read_back :
    (a b : String) (x y : Option String) (d : Dict (Option String))
    → (b === a) ≡ false
    → remembered a (some (insert b y (insert a x d))) ≡ x
read_back a b x y d other =
    remembered-some a x (insert b y (insert a x d))
      (lookup-insert a b y (insert a x d) ∙ rw other (lookup-insert_self a x d))

abbrev visited : String → Option String → Session → Session
visited name db s = record s {
  active = name;
  databases = some (insert name db (copied s.databases));
}

get_active_database-visited :
    (a b : String) (e : ConnectionEntry) (x y : Option String) (s : Session)
    → lookup a s.registry ≡ some e
    → (b === a) ≡ false
    → get_active_database (record (visited b y (visited a x s)) { active = a }) ≡ x
unfolding get_active_database
get_active_database-visited a b e x y s known other =
    rw known (read_back a b x y (copied s.databases) other)

-- A session that sets the database of a registered connection, turns to another registered one, sets
-- one there and comes back has the database that it set first: each connection remembers its own.
pub get_active_database-visit :
    (a b : String) (e f : ConnectionEntry) (x y : Option String) (s : Session)
    → lookup a s.registry ≡ some e
    → lookup b s.registry ≡ some f
    → (b === a) ≡ false
    → get_active_database (switch a (visit b y (visit a x s))).1 ≡ x
get_active_database-visit a b e f x y s known known' other =
    ap (λ r. get_active_database (switch a (visit b y r)).1) (visit_known a e s known x)
    ∙ (ap (λ r. get_active_database (switch a r).1) (visit_known b f (visited a x s) known' y)
        ∙ (ap (λ r. get_active_database r.1) (switch_known a e (visited b y (visited a x s)) known)
            ∙ get_active_database-visited a b e x y s known other))
