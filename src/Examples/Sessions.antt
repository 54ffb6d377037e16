-- ===== src/Examples/Sessions.antt =====
-- Two connections of a session.
use guardmcp.Prelude.{◌≡◌, ◌↔◌, true, none, some, [], ◌∷◌, Member, is_some, if◌then◌else◌}
use guardmcp.Dict.{lookup}
use guardmcp.Policy.{Policy}
use guardmcp.Pipeline.Execute.{allowed, denied}
use guardmcp.Connections.{
  ConnectionEntry, Session, switch, get_active_database, switch_connection_audited,
  discover_collections,
}
use guardmcp.Connections.Audited.{
  Allows, Discoverable, switch_connection_audited_iff, discover_collections_iff,
}
use guardmcp.Examples.{analyst, mongo}

abbrev entry : ConnectionEntry
entry = record { executor = some mongo; plugin = none }

abbrev session : Session
session = record {
  registry = ("default", entry) ∷ ("reports", entry) ∷ [];
  active = "default";
  databases = none;
}

abbrev restricted : Policy
restricted = record analyst { connections_allow = "reports" ∷ [] }

switch_connection_audited_iff_example :
    let (ok, r, s') = switch_connection_audited (some restricted) "analyst" "reports" session in
    ((ok ≡ true)
      ↔ ((is_some (lookup "reports" session.registry) ≡ true) × Allows (some restricted) "reports"))
    × (r.status ≡ (if ok then allowed else denied))
    × (s' ≡ (if ok then record session { active = "reports" } else session))
switch_connection_audited_iff_example =
    switch_connection_audited_iff (some restricted) "analyst" "reports" session

discover_collections_iff_example :
    let (found, r) = discover_collections (some analyst) session mongo "analyst" none in
    (Member "users" found
      ↔ (Member "users" (mongo.list_collections none) × Discoverable (some analyst) none "users"))
    × (r.status ≡ allowed)
unfolding guardmcp.Connections.get_executor lookup
discover_collections_iff_example =
    discover_collections_iff (some analyst) session mongo "analyst" none "users"
