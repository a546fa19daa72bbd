-- ===== src/Raft/Examples.antt =====
-- The raft controller over libraries that always succeed, and a world that counts the calls of Serve
-- and of Stop of the server.
use dnslb.Base.{ℕ, suc, false, List, Str, bytes, ok}
use dnslb.Raft.{RaftTypes, RaftLib, RaftController, new_raft}

abbrev Types : RaftTypes
Types = record {
  Socket = Str;
  Store = List Str;
  Snapshots = List Str;
  Raft = Str;
  Manager = Str;
  Server = Str;
}

abbrev lib : RaftLib Types (ℕ × ℕ)
lib = record {
  listen = λ port s. (ok port, s);
  new_bolt_store = λ path s. (ok path, s);
  new_file_snapshot_store = λ path s. (ok path, s);
  new_transport = λ address. address;
  new_raft = λ id ldb sdb fss manager s. (ok id, s);
  bootstrap_cluster = λ r members s. (ok tt, s);
  new_server = λ r manager s. (r, s);
  serve = λ server socket s. (ok tt, (suc s.0, s.1));
  stop_server = λ server s. (s.0, suc s.1);
}

abbrev controller : RaftController Types
controller = record {
  raft = bytes "a";
  transport_manager = bytes "h:1";
  running = false;
  grpc_server = bytes "a";
  socket = bytes ":1";
}
