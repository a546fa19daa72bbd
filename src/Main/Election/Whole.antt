-- ===== src/Main/Election/Whole.antt =====
-- The whole process in the branch for raft of dnsManage of main.go: the goroutine of the leader
-- channel, Run and Stop of the controllers, and what their loops do.
use dnslb.Base.{false, some, List, ◌∷◌, ◌++◌, ◌≡◌, ◌≢◌, ◌⊎◌, inl, inr, refl, sym}
use mathlib.Core.Path.{subst}
use dnslb.Loadbalancer.{LoadbalancerList}
use dnslb.EtcdController.{EtcdEnv}
use dnslb.EtcdController.Untouched.{KeepsView, sync_status-view, sync_monitors-view}
use dnslb.EtcdController.Lifecycle as EtcdLifecycle
use dnslb.Dns.{DnsTypes}
use dnslb.DnsController.{DnsEnv, DnsController}
use dnslb.DnsController.Loop.{receive, tick}
use dnslb.DnsController.Lifecycle.{Loop, at_work}
use dnslb.System.{System, after_status, after_monitors}
use dnslb.Main.Election.Leader.{stop_dns, in_dns_stop, Process, initial}
use dnslb.Main.Election.Leader
use dnslb.Main.Election.Resting.{IsResting, follower_rests}

-- Where the goroutines are, and the controllers with the world.
pub record Whole (T : DnsTypes) (S : Type 0) : Type 0 where
  pub process : Process
  pub system : System T S

module _ {T : DnsTypes} {S : Type 0} (env : EtcdEnv S) (denv : DnsEnv T S) where
  -- One step: of the goroutines; what a loop does in the body of its case, at any time there and as
  -- often as it likes, while in the code it is once; or of somebody else in the world.
  pub data Step : Whole T S → Whole T S → Type 0 where
    control :
        (w : Whole T S) (p : Process) → Leader.Step w.process p → Step w (record w { process = p })
    status :
        (w : Whole T S)
        → w.process.etcd.status.at ≡ EtcdLifecycle.at_work
        → Step w (record w { system = after_status env denv w.system })
    monitors :
        (w : Whole T S)
        → w.process.etcd.monitor.at ≡ EtcdLifecycle.at_work
        → Step w (record w { system = after_monitors env denv w.system })
    deliver :
        (w : Whole T S) (before after : List LoadbalancerList) (lbs : LoadbalancerList)
        → w.process.dns.lists.at ≡ at_work
        → w.system.etcd.updates ≡ before ++ lbs ∷ after
        → Step w (record w {
          system = record w.system {
            etcd = record w.system.etcd { updates = before ++ after };
            dns = receive lbs w.system.dns;
          };
        })
    round :
        (w : Whole T S) (c : DnsController T) (s : S)
        → w.process.dns.rounds.at ≡ at_work
        → tick denv w.system.dns w.system.world ≡ some (c, s)
        → Step w (record w { system = record w.system { dns = c; world = s } })
    outside : (w : Whole T S) (s : S) → Step w (record w { system = record w.system { world = s } })

  pub data Steps : Whole T S → Whole T S → Type 0 where
    here : (w : Whole T S) → Steps w w
    then_step : (x y z : Whole T S) → Steps x y → Step y z → Steps x z

  -- A step of somebody else.
  abbrev pub IsOutside : (w z : Whole T S) → Step w z → Type 0
  IsOutside _ _ (Step.outside w s) = Unit
  IsOutside _ _ _ = ⊥

  Step-process :
      (x y : Whole T S) → Step x y → Leader.Steps initial x.process → Leader.Steps initial y.process
  Step-process _ _ (Step.control w p s) h = Leader.Steps.then_step initial w.process p h s
  Step-process _ _ (Step.status w a) h = h
  Step-process _ _ (Step.monitors w a) h = h
  Step-process _ _ (Step.deliver w before after lbs a e) h = h
  Step-process _ _ (Step.round w c t a e) h = h
  Step-process _ _ (Step.outside w t) h = h

  pub Steps-process :
      (x y : Whole T S) → Steps x y → x.process ≡ initial → Leader.Steps initial y.process
  Steps-process _ _ (Steps.here w) e =
      subst (Leader.Steps initial) (sym e) (Leader.Steps.here initial)
  Steps-process _ _ (Steps.then_step x y z steps s) e =
      Step-process y z s (Steps-process x y steps e)

  rests_busy : (l : Loop) → IsResting l → l.at ≡ at_work → ⊥
  rests_busy l (inl n) a = cc
  rests_busy l (inr c) a = cc

  -- In an election by raft, from the start of the process on, in whatever order its goroutines take
  -- turns, as long as nothing panics and the etcd controller is not run while a goroutine of an earlier
  -- call is left: while the process is not the leader, and dnsCtrl.Stop() has returned, no step but one
  -- of somebody else changes what the calls on etcd keep of the world, such as the zones at the
  -- provider, and no step at all changes what the DNS controller knows.
  pub follower_untouched :
      {A : Type 0} (view : S → A) (x y z : Whole T S)
      → KeepsView env view
      → x.process ≡ initial
      → Steps x y
      → y.process.health.is_leading ≡ false
      → y.process.pc ≢ stop_dns
      → y.process.pc ≢ in_dns_stop
      → (s : Step y z)
      → (z.system.dns ≡ y.system.dns)
        × (IsOutside y z s ⊎ (view z.system.world ≡ view y.system.world))
  follower_untouched view x y z keeps e steps l m n s =
      go y z s (follower_rests y.process (Steps-process x y steps e) l m n)
    where
      go :
          (y z : Whole T S) (s : Step y z)
          → IsResting y.process.dns.rounds × IsResting y.process.dns.lists
          → (z.system.dns ≡ y.system.dns)
            × (IsOutside y z s ⊎ (view z.system.world ≡ view y.system.world))
      go _ _ (Step.control w p s) h = (refl, inr refl)
      go _ _ (Step.status w a) h =
          (refl, inr (sync_status-view env view keeps w.system.etcd w.system.world))
      go _ _ (Step.monitors w a) h =
          (refl, inr (sync_monitors-view env view keeps w.system.etcd w.system.world))
      go _ _ (Step.deliver w before after lbs a e) h = absurd (rests_busy w.process.dns.lists h.1 a)
      go _ _ (Step.round w c t a e) h = absurd (rests_busy w.process.dns.rounds h.0 a)
      go _ _ (Step.outside w t) h = (refl, inl tt)
