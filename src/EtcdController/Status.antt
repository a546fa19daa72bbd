-- ===== src/EtcdController/Status.antt =====
-- syncStatus: the healthy reports are counted for each endpoint, and the load balancers keep the
-- endpoints that a majority of the agents found healthy.
use dnslb.Base.{
  ℕ, ◌+◌, ◌-◌, ◌/◌, Bool, true, false, List, [], ◌∷◌, ◌++◌, Str, bytes, Dict, lookup, insert,
  value_or, Result, ok, err, ltb, length, is_empty, if◌then◌else◌,
}
use dnslb.Go.Decimal.{itoa_int}
use dnslb.Go.Ip.{ip_string}
use dnslb.Net.{EndpointProtocol, endpoint_string}
use dnslb.Loadbalancer.{Loadbalancer, new_loadbalancer, new_loadbalancer_list}
use dnslb.EtcdController.{
  HealthStatus, EtcdEnv, agents_total, agents_up, agents_down, agents_to_healthy_endpoints,
  lb_total_endpoints, lb_healthy_endpoints, lb_unhealthy_endpoints, Metrics, observe,
  EtcdController,
}
use dnslb.EtcdController.Report.{AgentError, get_status_from_agent}

-- fmt.Sprintf("%v:%d", status.IP, status.Port)
unfoldable pub status_key : HealthStatus → Str
status_key st = ip_string st.ip ++ (bytes ":" ++ itoa_int st.port)

-- One round of the loop over an agent's statuses: the number of healthy ones, and the counts.
abbrev pub count_status : HealthStatus → ℕ × Dict ℕ → ℕ × Dict ℕ
count_status st (n, counts) =
    if st.healthy
    then (n + 1, insert (status_key st) (value_or 0 (lookup (status_key st) counts) + 1) counts)
    else (n, counts)

unfoldable pub count_statuses : List HealthStatus → ℕ × Dict ℕ → ℕ × Dict ℕ
count_statuses [] acc = acc
count_statuses (st ∷ statuses) acc = count_statuses statuses (count_status st acc)

-- The variables of the loop over the agents.
pub record Tally (S : Type 0) : Type 0 where
  pub endpoint_to_healthy : Dict ℕ
  pub down_agents : ℕ
  pub metrics : Metrics
  pub world : S

abbrev pub after_report :
    {S : Type 0} → Str → Tally S → Result AgentError (List HealthStatus) × Metrics × S → Tally S
after_report agent t (err e, m, s) = record {
  endpoint_to_healthy = t.endpoint_to_healthy;
  down_agents = t.down_agents + 1;
  metrics = observe (agents_to_healthy_endpoints agent 0) m;
  world = s;
}
after_report agent t (ok statuses, m, s) =
    let (n, counts) = count_statuses statuses (0, t.endpoint_to_healthy) in
    record {
      endpoint_to_healthy = counts;
      down_agents = t.down_agents;
      metrics = observe (agents_to_healthy_endpoints agent n) m;
      world = s;
    }

-- The loop over the agents.
unfoldable pub tally_agents : {S : Type 0} → EtcdEnv S → ℕ → List Str → Tally S → Tally S
tally_agents env max [] t = t
tally_agents env max (agent ∷ agents) t =
    tally_agents env max agents
      (after_report agent t (get_status_from_agent env max agent t.metrics t.world))

-- The variables of the loop over a load balancer's endpoints.
pub record Selection : Type 0 where
  pub endpoints : List EndpointProtocol
  pub healthy_ep : ℕ
  pub unhealthy_ep : ℕ

unfoldable pub majority_healthy : ℕ → Dict ℕ → EndpointProtocol → Bool
majority_healthy agents counts e =
    ltb (agents / 2) (value_or 0 (lookup (endpoint_string e.endpoint) counts))

-- One round of that loop, for an endpoint that the majority finds healthy or not.
abbrev pub select_endpoint : EndpointProtocol → Bool → Selection → Selection
select_endpoint e true sel = record sel {
  endpoints = sel.endpoints ++ e ∷ [];
  healthy_ep = sel.healthy_ep + 1;
}
select_endpoint e false sel = record sel { unhealthy_ep = sel.unhealthy_ep + 1 }

unfoldable pub select_endpoints : ℕ → Dict ℕ → Selection → List EndpointProtocol → Selection
select_endpoints agents counts sel [] = sel
select_endpoints agents counts sel (e ∷ es) =
    select_endpoints agents counts (select_endpoint e (majority_healthy agents counts e) sel) es

abbrev pub no_selection : Selection
no_selection = record { endpoints = []; healthy_ep = 0; unhealthy_ep = 0 }

abbrev pub observe_lb : Loadbalancer → Selection → Metrics → Metrics
observe_lb lb sel m = observe (lb_unhealthy_endpoints lb.name sel.unhealthy_ep) (
    observe (lb_healthy_endpoints lb.name sel.healthy_ep)
      (observe (lb_total_endpoints lb.name (length lb.endpoints)) m))

-- A load balancer without endpoints is left out.
abbrev pub add_lb : Loadbalancer → Selection → List Loadbalancer → List Loadbalancer
add_lb lb sel current =
    if is_empty sel.endpoints
    then current
    else current ++ new_loadbalancer lb.name sel.endpoints ∷ []

-- The loop over the wanted load balancers: what is current, and the metrics.
unfoldable pub select_lbs :
    ℕ → Dict ℕ → List Loadbalancer × Metrics → List Loadbalancer → List Loadbalancer × Metrics
unfolding select_endpoints
select_lbs agents counts acc [] = acc
select_lbs agents counts (current, m) (lb ∷ wanted) =
    let sel = select_endpoints agents counts no_selection lb.endpoints in
    select_lbs agents counts (add_lb lb sel current, observe_lb lb sel m) wanted

module _ {S : Type 0} (env : EtcdEnv S) where
  -- The tally of a round.
  abbrev pub tally : EtcdController → S → Tally S
  tally c s = tally_agents env c.max_status_age c.agents (record {
    endpoint_to_healthy = [];
    down_agents = 0;
    metrics = observe (agents_total (length c.agents)) c.metrics;
    world = s;
  })

  abbrev pub observe_agents : ℕ → Tally S → Metrics
  observe_agents agents t =
      observe (agents_down t.down_agents) (observe (agents_up (agents - t.down_agents)) t.metrics)

  -- syncStatus, which never returns an error. `length agents - down_agents` is exact: no more agents
  -- are down than there are.
  unfoldable pub sync_status : EtcdController → S → EtcdController × S
  unfolding tally_agents select_lbs
  sync_status c s =
      let t = tally c s in
      let n = length c.agents in
      let (current, m) = select_lbs n t.endpoint_to_healthy ([], observe_agents n t) c.wanted in
      (
        record c {
          metrics = m;
          current = current;
          updates = c.updates ++ new_loadbalancer_list env.xxhash current ∷ [];
        },
        t.world,
      )
