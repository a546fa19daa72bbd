-- ===== src/Etcd/Client.antt =====
-- ETCD: the provider over the client library go.etcd.io/etcd/client, which is a parameter.
use dnslb.Base.{Option, none, some, List, Str, bytes, Result, ok, err}
use dnslb.Etcd.{EtcdError, EtcdProvider}

-- The client library: a connection is made by `connect`, and `kapi_set` and `kapi_get` are the calls
-- of its keys API under a context of five seconds. A response may lack its node.
pub record EtcdLibrary (S : Type 0) : Type 0 where
  pub connect : List Str → S → Result EtcdError (Unit {0}) × S
  pub kapi_set : Str → Str → S → Result EtcdError (Unit {0}) × S
  pub kapi_get : Str → S → Result EtcdError (Option Str) × S

abbrev node_value : Result EtcdError (Option Str) → Result EtcdError Str
node_value (err e) = err e
node_value (ok none) = err (bytes "missing node in response from etcd")
node_value (ok (some value)) = ok value

module _ {S : Type 0} (lib : EtcdLibrary S) where
  unfoldable pub etcd_init : List Str → S → Result EtcdError (Unit {0}) × S
  etcd_init endpoints s = lib.connect endpoints s

  unfoldable pub etcd_set : Str → Str → S → Result EtcdError (Unit {0}) × S
  etcd_set key value s = lib.kapi_set key value s

  unfoldable pub etcd_get : Str → S → Result EtcdError Str × S
  etcd_get key s = let (resp, s') = lib.kapi_get key s in (node_value resp, s')

  abbrev pub etcd : EtcdProvider S
  unfolding etcd_init etcd_set etcd_get
  etcd = record { init = etcd_init; set = etcd_set; get = etcd_get }
