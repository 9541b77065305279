-- ===== src/AuthService/Replication.antt =====
-- main.py: what the consumer of the replication does to the replica. Both handlers log an exception
-- and return, so that the event is acknowledged.
use distributed_traffic_serv.Base.{
  String, Bool, true, false, not, ◌||◌, List, [], ◌∷◌, ◌==◌, string_eq, is_some, filter,
  if◌then◌else◌,
}
use distributed_traffic_serv.AuthService.Accounts.{Account, Tables, find_email, find_id}
use distributed_traffic_serv.AuthService.Register.{
  ReplicationEvent, user_registered, user_registration_failed,
}

-- `insert(ReplicatedUser)….on_conflict_do_nothing()`: ids and emails are unique.
unfoldable pub insert_replica : Account → List Account → List Account
unfolding find_email find_id
insert_replica user replicas =
    if is_some (find_id user.id replicas) || is_some (find_email user.email replicas)
    then replicas
    else user ∷ replicas

-- `db.delete` of the row of an id, where there is one.
unfoldable pub delete_replica : String → List Account → List Account
unfolding filter
delete_replica id replicas = filter (λ a. not (a.id == id)) replicas

-- `handle_replication_event`, where the database answers or not.
unfoldable pub handle_replication_event : Bool → ReplicationEvent → Tables → Tables
unfolding insert_replica delete_replica
handle_replication_event false event tables = tables
handle_replication_event true (user_registered user) tables = record tables {
  replicas = insert_replica user tables.replicas;
}
handle_replication_event true (user_registration_failed id email) tables = record tables {
  replicas = delete_replica id tables.replicas;
}

-- Events that a node handles in their order, its database answering.
unfoldable pub handle_all : List ReplicationEvent → Tables → Tables
unfolding handle_replication_event
handle_all [] tables = tables
handle_all (event ∷ events) tables = handle_all events (handle_replication_event true event tables)
