-- ===== src/Main/Election/Leader.antt =====
-- The branch for raft of dnsManage of main.go: the goroutine that receives from the leader channel, and
-- the loops of the controllers that it runs and stops, as steps in any order.
use dnslb.Base.{ℕ, true, Option, some, ◌≡◌, ◌⊎◌}
use dnslb.Main.Health.{HealthState, started_leading, stopped_leading, on_event}
use dnslb.Main.Health
use dnslb.DnsController.Lifecycle
use dnslb.EtcdController.Lifecycle as EtcdLifecycle
use dnslb.EtcdController.Lifecycle.{IsQuiet}

-- Where the goroutine is: at its receive, before a call of Run, before dnsCtrl.Stop(), or in one of the
-- calls of Stop.
pub data Pc : Type 0 where
  receiving run_etcd run_dns stop_dns in_dns_stop in_etcd_stop : Pc

-- The goroutine is the first caller of both controllers.
pub record Process : Type 0 where
  pub health : HealthState
  pub etcd : EtcdLifecycle.Lifecycle
  pub dns : Lifecycle.Lifecycle
  pub pc : Pc

abbrev pub initial : Process
initial = record {
  health = Health.initial;
  etcd = EtcdLifecycle.initial;
  dns = Lifecycle.initial;
  pc = receiving;
}

-- A step within a call or of a loop.
abbrev pub IsInner :
    (y : Lifecycle.Lifecycle) (o : Option Lifecycle.Lifecycle) → Lifecycle.Step y o → Type 0
IsInner _ _ (Lifecycle.Step.call_run w y e) = ⊥
IsInner _ _ (Lifecycle.Step.call_stop w y e) = ⊥
IsInner _ _ _ = Unit

abbrev pub IsEtcdInner :
    (y : EtcdLifecycle.Lifecycle) (o : Option EtcdLifecycle.Lifecycle)
    → EtcdLifecycle.Step y o
    → Type 0
IsEtcdInner _ _ (EtcdLifecycle.Step.call_run w y e q) = ⊥
IsEtcdInner _ _ (EtcdLifecycle.Step.call_stop w y e) = ⊥
IsEtcdInner _ _ _ = Unit

-- One step that is no panic. The second caller of the controllers, the goroutine that waits for a
-- signal, does nothing here, since no signal reaches it.
pub data Step : Process → Process → Type 0 where
  elected :
      (p : Process)
      → p.pc ≡ receiving
      → Step p (record p { health = on_event started_leading p.health; pc = run_etcd })
  runs_etcd :
      (p : Process)
      → p.pc ≡ run_etcd
      → p.etcd.first ≡ EtcdLifecycle.idle
      → (p.etcd.running ≡ true) ⊎ IsQuiet p.etcd
      → Step p (record p { etcd = EtcdLifecycle.run p.etcd; pc = run_dns })
  runs_dns :
      (p : Process)
      → p.pc ≡ run_dns
      → p.dns.first ≡ Lifecycle.idle
      → Step p (record p { dns = Lifecycle.run p.dns; pc = receiving })
  deposed :
      (p : Process) (now : ℕ)
      → p.pc ≡ receiving
      → Step p (record p { health = on_event (stopped_leading now) p.health; pc = stop_dns })
  stops_dns :
      (p : Process)
      → p.pc ≡ stop_dns
      → p.dns.first ≡ Lifecycle.idle
      → Step p (record p { dns = Lifecycle.stop Lifecycle.one p.dns; pc = in_dns_stop })
  -- dnsCtrl.Stop() has returned, and etcdCtrl.Stop() is called.
  stops_etcd :
      (p : Process)
      → p.pc ≡ in_dns_stop
      → p.dns.first ≡ Lifecycle.idle
      → p.etcd.first ≡ EtcdLifecycle.idle
      → Step p (record p { etcd = EtcdLifecycle.stop EtcdLifecycle.one p.etcd; pc = in_etcd_stop })
  stopped :
      (p : Process)
      → p.pc ≡ in_etcd_stop
      → p.etcd.first ≡ EtcdLifecycle.idle
      → Step p (record p { pc = receiving })
  dns_moves :
      (p : Process) (z : Lifecycle.Lifecycle) (s : Lifecycle.Step p.dns (some z))
      → IsInner p.dns (some z) s
      → Step p (record p { dns = z })
  etcd_moves :
      (p : Process) (z : EtcdLifecycle.Lifecycle) (s : EtcdLifecycle.Step p.etcd (some z))
      → IsEtcdInner p.etcd (some z) s
      → Step p (record p { etcd = z })

pub data Steps : Process → Process → Type 0 where
  here : (p : Process) → Steps p p
  then_step : (p q r : Process) → Steps p q → Step q r → Steps p r
