-- ===== src/Main/Election/Examples.antt =====
-- An election by raft at concrete states: the process is elected and runs both controllers, then it is
-- deposed, and has stopped the DNS controller, while the etcd controller is in a round.
use dnslb.Base.{false, ◌≡◌, ◌⊎◌, inr, refl}
use dnslb.Main.Health.{on_event, started_leading, stopped_leading}
use dnslb.DnsController.Lifecycle.{one, idle, at_lb_stop, at_reset, at_close, moved, set_call}
use dnslb.DnsController.Lifecycle
use dnslb.EtcdController.Lifecycle as EtcdLifecycle
use dnslb.EtcdController.Lifecycle.{status_loop, loop_of, set_loop, begin}
use dnslb.DnsController.Examples.Provider.{Types}
use dnslb.System.{after_status}
use dnslb.System.Examples.{World, etcd_world, dns_world, process}
use dnslb.Main.Election.Leader.{
  run_etcd, run_dns, receiving, stop_dns, in_dns_stop, in_etcd_stop, Process, initial, Step, Steps,
}
use dnslb.Main.Election.Leading.{leader_runs}
use dnslb.Main.Election.Whole.{Whole, IsOutside, follower_untouched}
use dnslb.Main.Election.Whole

abbrev elected_leader : Process
elected_leader = record initial { health = on_event started_leading initial.health; pc = run_etcd }

abbrev with_etcd : Process
with_etcd = record elected_leader { etcd = EtcdLifecycle.run EtcdLifecycle.initial; pc = run_dns }

abbrev leader : Process
leader = record with_etcd { dns = Lifecycle.run Lifecycle.initial; pc = receiving }

to_leader : Steps initial leader
to_leader =
    Steps.then_step initial with_etcd leader
      (Steps.then_step initial elected_leader with_etcd
        (Steps.then_step initial initial elected_leader (Steps.here initial)
          (Step.elected initial refl))
        (Step.runs_etcd elected_leader refl refl (inr (refl, refl, refl, refl))))
      (Step.runs_dns with_etcd refl refl)

leader_runs_example :
    (leader.etcd.first ≡ EtcdLifecycle.idle)
    × (leader.etcd.running ≡ leader.health.is_leading)
    × (leader.dns.first ≡ Lifecycle.idle)
    × (leader.dns.running ≡ leader.health.is_leading)
leader_runs_example = leader_runs leader to_leader refl

abbrev follower : Process
follower = record leader { health = on_event (stopped_leading 5) leader.health; pc = stop_dns }

abbrev in_stop : Process
in_stop = record follower { dns = Lifecycle.stop one follower.dns; pc = in_dns_stop }

abbrev half_stopped : Process
half_stopped = record in_stop {
  dns =
      set_call one (at_lb_stop 1)
        (record in_stop.dns { rounds = moved at_close in_stop.dns.rounds });
}

abbrev both_stopped : Process
both_stopped = record half_stopped {
  dns =
      set_call one at_reset
        (record half_stopped.dns { lists = moved at_close half_stopped.dns.lists });
}

abbrev dns_stopped : Process
dns_stopped = record both_stopped {
  dns = set_call one idle (record both_stopped.dns { running = false });
}

abbrev stopping_etcd : Process
stopping_etcd = record dns_stopped {
  etcd = EtcdLifecycle.stop EtcdLifecycle.one dns_stopped.etcd;
  pc = in_etcd_stop;
}

to_in_stop : Steps initial in_stop
unfolding Lifecycle.run
to_in_stop =
    Steps.then_step initial follower in_stop
      (Steps.then_step initial leader follower to_leader (Step.deposed leader 5 refl))
      (Step.stops_dns follower refl refl)

to_stopping_etcd : Steps initial stopping_etcd
unfolding Lifecycle.stop Lifecycle.run EtcdLifecycle.run
to_stopping_etcd =
    Steps.then_step initial dns_stopped stopping_etcd
      (Steps.then_step initial both_stopped dns_stopped
        (Steps.then_step initial half_stopped both_stopped
          (Steps.then_step initial in_stop half_stopped to_in_stop (
            Step.dns_moves in_stop half_stopped.dns
              (Lifecycle.Step.send_stop one in_stop.dns refl refl refl) tt))
          (Step.dns_moves half_stopped both_stopped.dns
            (Lifecycle.Step.send_lb_stop one half_stopped.dns refl refl refl) tt))
        (Step.dns_moves both_stopped dns_stopped.dns
          (Lifecycle.Step.reset one both_stopped.dns refl) tt))
      (Step.stops_etcd dns_stopped refl refl refl)

-- Beside it statusLoop has begun, and is in a round.
abbrev begun : Process
begun = record stopping_etcd {
  etcd = set_loop status_loop (begin (loop_of status_loop stopping_etcd.etcd)) stopping_etcd.etcd;
}

abbrev busy : Process
busy = record begun {
  etcd =
      set_loop status_loop
        (EtcdLifecycle.moved EtcdLifecycle.at_work (loop_of status_loop begun.etcd)) begun.etcd;
}

abbrev at_start : Whole Types World
at_start = record { process = initial; system = process }

abbrev whole : Whole Types World
whole = record { process = busy; system = process }

abbrev after : Whole Types World
after = record whole { system = after_status etcd_world dns_world process }

to_busy : Steps initial busy
unfolding Lifecycle.stop Lifecycle.run EtcdLifecycle.stop EtcdLifecycle.run
to_busy =
    Steps.then_step initial begun busy
      (Steps.then_step initial stopping_etcd begun to_stopping_etcd (
        Step.etcd_moves stopping_etcd begun.etcd
          (EtcdLifecycle.Step.begins status_loop stopping_etcd.etcd refl) tt))
      (Step.etcd_moves begun busy.etcd (EtcdLifecycle.Step.works status_loop begun.etcd refl) tt)

all_control :
    (x p : Process)
    → Steps x p
    → Whole.Steps etcd_world dns_world
        (record { process = x; system = process })
        (record { process = p; system = process })
all_control _ _ (Steps.here p) = Whole.Steps.here (record { process = p; system = process })
all_control _ _ (Steps.then_step x q p steps s) =
    Whole.Steps.then_step (record { process = x; system = process })
      (record { process = q; system = process }) (record { process = p; system = process })
      (all_control x q steps) (Whole.Step.control (record { process = q; system = process }) p s)

follower_untouched_example :
    (after.system.dns ≡ whole.system.dns)
    × (IsOutside etcd_world dns_world whole after (Whole.Step.status whole refl)
        ⊎ (after.system.world.1 ≡ whole.system.world.1))
unfolding on_event
follower_untouched_example =
    follower_untouched etcd_world dns_world (λ w. w.1) at_start whole after
      (record { view-get = λ k w. refl; view-set = λ k v w. refl }) refl
      (all_control initial busy to_busy) refl (λ e. cc) (λ e. cc) (Whole.Step.status whole refl)
