-- ===== src/EtcdController/Published.antt =====
-- Which load balancers and endpoints syncStatus publishes.
use dnslb.Base.{
  ℕ, ◌*◌, ◌/◌, ◌≤◌, Bool, true, false, List, [], ◌∷◌, ◌++◌, Dict, lookup, ltb, length, is_empty,
  keep, if◌then◌else◌, ◌≡◌, refl, ap, sym, ◌∙◌, arith, append_assoc, append-nil, fun_ext,
  le→ltb_false,
}
use dnslb.Net.{EndpointProtocol, endpoint_string}
use dnslb.Loadbalancer.{Loadbalancer, new_loadbalancer, new_loadbalancer_list}
use dnslb.EtcdController.{EtcdEnv, Metrics, EtcdController}
use dnslb.EtcdController.Status.{
  Selection, no_selection, majority_healthy, select_endpoint, select_endpoints, add_lb, observe_lb,
  select_lbs, tally, sync_status,
}
use dnslb.EtcdController.Votes.{
  Report, total_entries, votes, downs, NoDuplicates, reports, count_of-tally_agents, length-reports,
  total_entries-eq-votes, votes-downs,
}

-- The load balancers cut down to the endpoints that pass a test, without those that are left with no
-- endpoint, in the order of the configuration.
unfoldable pub published : (EndpointProtocol → Bool) → List Loadbalancer → List Loadbalancer
published p [] = []
published p (lb ∷ lbs) =
    let rest = published p lbs in
    let kept = keep p lb.endpoints in
    if is_empty kept then rest else new_loadbalancer lb.name kept ∷ rest

endpoints-select_endpoints :
    (agents : ℕ) (counts : Dict ℕ) (sel : Selection) (es : List EndpointProtocol)
    → (select_endpoints agents counts sel es).endpoints
      ≡ sel.endpoints ++ keep (majority_healthy agents counts) es
unfolding select_endpoints
endpoints-select_endpoints agents counts sel [] = sym (append-nil sel.endpoints)
endpoints-select_endpoints agents counts sel (e ∷ es) =
    let up = majority_healthy agents counts e in
    endpoints-select_endpoints agents counts (select_endpoint e up sel) es
    ∙ one_more up (keep (majority_healthy agents counts) es)
  where
    one_more :
        (up : Bool) (rest : List EndpointProtocol)
        → (select_endpoint e up sel).endpoints ++ rest
          ≡ sel.endpoints ++ (if up then e ∷ rest else rest)
    one_more true rest = append_assoc sel.endpoints (e ∷ []) rest
    one_more false rest = refl

current-select_lbs :
    (agents : ℕ) (counts : Dict ℕ) (current : List Loadbalancer) (m : Metrics)
    (lbs : List Loadbalancer)
    → (select_lbs agents counts (current, m) lbs).0
      ≡ current ++ published (majority_healthy agents counts) lbs
unfolding select_lbs published
current-select_lbs agents counts current m [] = sym (append-nil current)
current-select_lbs agents counts current m (lb ∷ lbs) =
    let sel = select_endpoints agents counts no_selection lb.endpoints in
    let kept : sel.endpoints ≡ keep (majority_healthy agents counts) lb.endpoints =
      endpoints-select_endpoints agents counts no_selection lb.endpoints in
    current-select_lbs agents counts (add_lb lb sel current) (observe_lb lb sel m) lbs
    ∙ ap (λ l. l ++ published (majority_healthy agents counts) lbs) (ap (added lb current) kept)
    ∙ joined lb current (keep (majority_healthy agents counts) lb.endpoints)
        (published (majority_healthy agents counts) lbs)
  where
    added : Loadbalancer → List Loadbalancer → List EndpointProtocol → List Loadbalancer
    added lb current es =
        if is_empty es then current else current ++ new_loadbalancer lb.name es ∷ []

    joined :
        (lb : Loadbalancer) (current : List Loadbalancer) (es : List EndpointProtocol)
        (rest : List Loadbalancer)
        → added lb current es ++ rest
          ≡ current ++ (if is_empty es then rest else new_loadbalancer lb.name es ∷ rest)
    joined lb current [] rest = refl
    joined lb current (e ∷ es) rest =
        append_assoc current (new_loadbalancer lb.name (e ∷ es) ∷ []) rest

half_ltb : (n a b : ℕ) → a ≡ b → ltb (n / 2) a ≡ ltb n (2 * b)
half_ltb n a b e = ground arith

published_none :
    (p : EndpointProtocol → Bool) (lbs : List Loadbalancer)
    → ((e : EndpointProtocol) → p e ≡ false)
    → published p lbs ≡ []
unfolding published
published_none p [] h = refl
published_none p (lb ∷ lbs) h = rw (keep_none lb.endpoints) (published_none p lbs h)
  where
    keep_none : (es : List EndpointProtocol) → keep p es ≡ []
    keep_none [] = refl
    keep_none (e ∷ es) = rw (h e) (keep_none es)

module _ {S : Type 0} (env : EtcdEnv S) (c : EtcdController) (s : S) where
  -- The reports that the agents give in this round.
  abbrev pub round_reports : List Report
  round_reports = reports env c.max_status_age c.agents s

  -- More than half of the configured agents call the endpoint healthy.
  abbrev pub has_majority : EndpointProtocol → Bool
  has_majority e = ltb (length c.agents) (2 * votes (endpoint_string e.endpoint) round_reports)

  -- The same with every healthy entry of a report for a vote.
  abbrev pub has_entries : EndpointProtocol → Bool
  has_entries e =
      ltb (length c.agents) (2 * total_entries (endpoint_string e.endpoint) round_reports)

  majority_healthy-tally :
      (e : EndpointProtocol)
      → majority_healthy (length c.agents) (tally env c s).endpoint_to_healthy e ≡ has_entries e
  unfolding majority_healthy
  majority_healthy-tally e = half_ltb (length c.agents) _ _ (
      count_of-tally_agents env c.max_status_age (endpoint_string e.endpoint) c.agents _
      ∙ unfold lookup in omega arith)

  -- In a round the published load balancers have the endpoints with more healthy entries than half
  -- the number of agents.
  pub sync_status_entries : (sync_status env c s).0.current ≡ published has_entries c.wanted
  unfolding sync_status
  sync_status_entries =
      current-select_lbs (length c.agents) (tally env c s).endpoint_to_healthy [] _ c.wanted
      ∙ ap (λ p. published p c.wanted) (fun_ext majority_healthy-tally)

  has_entries-has_majority :
      NoDuplicates round_reports → (e : EndpointProtocol) → has_entries e ≡ has_majority e
  has_entries-has_majority h e =
      ap (λ n. ltb (length c.agents) (2 * n))
        (total_entries-eq-votes (endpoint_string e.endpoint) round_reports
          (h (endpoint_string e.endpoint)))

  -- What waits to be sent on the channel after a round: one list more.
  pub updates-sync_status :
      (sync_status env c s).0.updates
      ≡ c.updates ++ new_loadbalancer_list env.xxhash (published has_entries c.wanted) ∷ []
  unfolding sync_status
  updates-sync_status =
      ap (λ l. c.updates ++ new_loadbalancer_list env.xxhash l ∷ []) sync_status_entries

  -- In a round in which no report calls an endpoint healthy twice, syncStatus sends one list on the
  -- channel, behind those that still wait, with its checksum: it has exactly the endpoints that more
  -- than half of the configured agents call healthy in a report that can be read and is not too old.
  -- The order of the configuration is kept, and a load balancer that is left with no endpoint is left
  -- out.
  pub sync_status_majority :
      NoDuplicates round_reports
      → (sync_status env c s).0.updates
        ≡ c.updates ++ new_loadbalancer_list env.xxhash (published has_majority c.wanted) ∷ []
  sync_status_majority h =
      updates-sync_status
      ∙ ap (λ p. c.updates ++ new_loadbalancer_list env.xxhash (published p c.wanted) ∷ [])
          (fun_ext (has_entries-has_majority h))

  -- In a round in which no report calls an endpoint healthy twice, an empty list is sent if half of
  -- the agents, or more, are down.
  pub sync_status_quorum :
      NoDuplicates round_reports
      → length c.agents ≤ 2 * downs round_reports
      → (sync_status env c s).0.updates ≡ c.updates ++ new_loadbalancer_list env.xxhash [] ∷ []
  sync_status_quorum h down =
      sync_status_majority h
      ∙ ap (λ l. c.updates ++ new_loadbalancer_list env.xxhash l ∷ [])
          (published_none has_majority c.wanted no_majority)
    where
      no_majority : (e : EndpointProtocol) → has_majority e ≡ false
      no_majority e = le→ltb_false (length c.agents) _ (
          omega (
            arith,
            votes-downs (endpoint_string e.endpoint) round_reports,
            length-reports env c.max_status_age c.agents s,
          ))
