-- ===== src/Etcd.antt =====
-- etcd.go: the interface to etcd, its mock, and the provider over the etcd client.
pub mod Mock
pub mod Client
mod Examples
use dnslb.Base.{Str, Result, List}

-- An error of a provider, with its message.
abbrev pub EtcdError : Type 0
EtcdError = Str

-- ETCDProvider: the methods over the state `S` of whoever implements them.
pub record EtcdProvider (S : Type 0) : Type 0 where
  pub init : List Str → S → Result EtcdError (Unit {0}) × S
  pub set : Str → Str → S → Result EtcdError (Unit {0}) × S
  pub get : Str → S → Result EtcdError Str × S
