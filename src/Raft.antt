-- ===== src/Raft.antt =====
-- grpcRaft.go and stateRaft.go: the controller around the raft library, and the state that raft
-- replicates, which is empty. Packages raft, raft-boltdb, raft-grpc-transport and grpc are parameters.
pub mod Address
pub mod Laws
mod Examples
use dnslb.Base.{
  ◌≡◌, Bool, true, false, Option, none, some, List, [], ◌∷◌, ◌++◌, Str, bytes, Result, ok, err,
  if◌then◌else◌,
}
use dnslb.Raft.Address.{AddressError, split_host_port}

-- The types of the libraries' values.
pub record RaftTypes : Type 1 where
  pub Socket : Type 0
  pub Store : Type 0
  pub Snapshots : Type 0
  pub Raft : Type 0
  pub Manager : Type 0
  pub Server : Type 0

-- raft.Server, as BootstrapCluster gets it.
pub record Member : Type 0 where
  pub is_voter : Bool
  pub id : Str
  pub address : Str

-- The libraries, over the state `S` of the outside world. A path is the list of the elements that
-- filepath.Join joins.
pub record RaftLib (T : RaftTypes) (S : Type 0) : Type 0 where
  pub listen : Str → S → Result Str T.Socket × S
  pub new_bolt_store : List Str → S → Result Str T.Store × S
  pub new_file_snapshot_store : List Str → S → Result Str T.Snapshots × S
  pub new_transport : Str → T.Manager
  pub new_raft : Str → T.Store → T.Store → T.Snapshots → T.Manager → S → Result Str T.Raft × S
  pub bootstrap_cluster : T.Raft → List Member → S → Result Str (Unit {0}) × S
  -- NewServer, and what is registered on it
  pub new_server : T.Raft → T.Manager → S → T.Server × S
  pub serve : T.Server → T.Socket → S → Result Str (Unit {0}) × S
  pub stop_server : T.Server → S → S

-- The errors of newRaft, with the library's messages.
pub data RaftError : Type 0 where
  no_log_store no_stable_store no_snapshot_store : List Str → Str → RaftError
  no_raft no_bootstrap : Str → RaftError

-- What log.Fatalf is called with: the end of the process.
pub data RaftFatal : Type 0 where
  bad_address : Str → AddressError → RaftFatal
  not_listening : Str → RaftFatal
  not_started : RaftError → RaftFatal
  not_served : Str → RaftFatal

pub record RaftController (T : RaftTypes) : Type 0 where
  pub raft : T.Raft
  pub transport_manager : T.Manager
  pub running : Bool
  pub grpc_server : T.Server
  pub socket : T.Socket

-- A call that may fail, and what follows it in the state that the call left.
abbrev pub then_in {ℓ κ} :
    {S E : Type 0} {A : Type ℓ} {B : Type κ}
    → (Str → E)
    → Result Str A × S
    → (A → S → Result E B × S)
    → Result E B × S
then_in f (ok a, s) k = k a s
then_in f (err e, s) k = (err (f e), s)

module _ {T : RaftTypes} {S : Type 0} (lib : RaftLib T S) where
  -- `if raftBootstrap { … }`
  unfoldable pub bootstrap :
      Bool → Str → Str → T.Raft → T.Manager → S → Result RaftError (T.Raft × T.Manager) × S
  bootstrap true id address r manager s =
      then_in no_bootstrap
        (lib.bootstrap_cluster r (record { is_voter = true; id = id; address = address } ∷ []) s)
        (λ u s'. (ok (r, manager), s'))
  bootstrap false id address r manager s = (ok (r, manager), s)

  -- newRaft
  unfoldable pub new_raft : Str → Str → Str → Bool → S → Result RaftError (T.Raft × T.Manager) × S
  unfolding bootstrap
  new_raft id address dir raft_bootstrap s =
      let logs = dir ∷ id ∷ bytes "logs.dat" ∷ [] in
      let stable = dir ∷ id ∷ bytes "stable.dat" ∷ [] in
      let manager = lib.new_transport address in
      then_in (no_log_store logs) (lib.new_bolt_store logs s) (λ ldb s₁.
        then_in (no_stable_store stable) (lib.new_bolt_store stable s₁) (λ sdb s₂.
          then_in (no_snapshot_store (dir ∷ id ∷ []))
            (lib.new_file_snapshot_store (dir ∷ id ∷ []) s₂)
            (λ fss s₃.
              then_in no_raft (lib.new_raft id ldb sdb fss manager s₃)
                (λ r s₄. bootstrap raft_bootstrap id address r manager s₄))))

  -- The controller of a raft that was made.
  unfoldable pub with_server :
      T.Socket → Result RaftError (T.Raft × T.Manager) × S → Result RaftFatal (RaftController T) × S
  with_server socket (err e, s) = (err (not_started e), s)
  with_server socket (ok (r, manager), s) =
      let (server, s') = lib.new_server r manager s in
      (
        ok (record {
          raft = r;
          transport_manager = manager;
          running = false;
          grpc_server = server;
          socket = socket;
        }),
        s',
      )

  -- NewRaftController
  unfoldable pub new_raft_controller :
      Str → Str → Str → Bool → S → Result RaftFatal (RaftController T) × S
  unfolding split_host_port with_server new_raft
  new_raft_controller address id dir raft_bootstrap s = elim (split_host_port address) [
    | err e ↦ (err (bad_address address e), s)
    | ok (host, port) ↦
        then_in not_listening (lib.listen (bytes ":" ++ port) s)
          (λ socket s'. with_server socket (new_raft id address dir raft_bootstrap s'))
  ]

  -- RaftController.Run, which serves until the server is stopped or fails: the controller afterwards.
  unfoldable pub run : RaftController T → S → Result RaftFatal (RaftController T) × S
  run c s =
      if c.running
      then (ok c, s)
      else then_in not_served (lib.serve c.grpc_server c.socket s) (λ u s'. (ok c, s'))

  -- RaftController.Stop
  unfoldable pub stop : RaftController T → S → RaftController T × S
  stop c s = if c.running then (c, lib.stop_server c.grpc_server s) else (c, s)

  -- Calls of the two methods, one after another, while no call ends the process.
  pub data Calls : RaftController T × S → RaftController T × S → Type 0 where
    none_yet : (c : RaftController T) (s : S) → Calls (c, s) (c, s)
    then_run :
        (x : RaftController T × S) (c d : RaftController T) (s t : S)
        → Calls x (c, s)
        → run c s ≡ (ok d, t)
        → Calls x (d, t)
    then_stop :
        (x : RaftController T × S) (c : RaftController T) (s : S)
        → Calls x (c, s)
        → Calls x (stop c s)
    then_other :
        (x : RaftController T × S) (c : RaftController T) (s t : S)
        → Calls x (c, s)
        → Calls x (c, t)

-- replicatedState: Apply, Snapshot and Restore, over an empty state and the raft's log entries.
pub record ReplicatedState : Type 0 where

unfoldable pub apply : {Log : Type 0} → Log → ReplicatedState → ReplicatedState
apply log f = f

pub record Snapshot : Type 0 where

unfoldable pub snapshot : ReplicatedState → Result Str Snapshot
snapshot f = ok (record {})

unfoldable pub restore : {Reader : Type 0} → Reader → ReplicatedState → Result Str ReplicatedState
restore r f = ok f

-- Persist closes the sink, and writes nothing to it; Release does nothing.
unfoldable pub persist :
    {S : Type 0} → (S → Result Str (Unit {0}) × S) → Snapshot → S → Result Str (Unit {0}) × S
persist close s sink = close sink
