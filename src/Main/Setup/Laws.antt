-- ===== src/Main/Setup/Laws.antt =====
-- The set-up of dnsManage after cfgValidation has passed, and its load balancers.
use dnslb.Base.{
  true, ℕ, ◌*◌, ◌^◌, ◌%◌, ◌<◌, none, some, List, [], ◌∷◌, ◌++◌, map, Str, bytes, str_eq, str_eq_iff,
  Dict, All, Result, ok, err, ◌>>=◌, ◌≡◌, ◌≢◌, ◌↔◌, refl, sym, ◌∙◌, ap, arith, inl, inr,
  append_assoc, append-nil, lt→ltb, All-of_Mem,
}
use mathlib.Core.Path.{subst}
use mathlib.Core.List.{Memᴰ}
use mathlib.Core.List.Memᴰ
use dnslb.Go.Decimal.{pos}
use dnslb.Go.Strings.Laws.{Free}
use dnslb.Net.{endpoint_protocol_string}
use dnslb.Net.RoundTrip.{IsEndpoint, IsItem}
use dnslb.Flags.{parse_loadbalancer_endpoint_list}
use dnslb.Flags.Laws.{parse_loadbalancer_endpoint_list-map}
use dnslb.Loadbalancer.{Loadbalancer}
use dnslb.Dns.{DnsTypes}
use dnslb.Main.Store.{Viper}
use dnslb.Main.Config.{cfg_validation}
use dnslb.Main.Config.Laws.{cfg_validation-IsComplete}
use dnslb.Main.Cli.Balancers.{IsLine, table_entry}
use dnslb.Main.Setup.{SetupEnv, load_zones, choose_provider, parse_loadbalancers, seconds}

-- Up to 2^63 nanoseconds a duration is the number of seconds that it is made of.
pub seconds_exact : (n : ℕ) → n * 10 ^ 9 < 2 ^ 63 → seconds (pos n) ≡ pos (n * 10 ^ 9)
unfolding seconds
seconds_exact n h =
    let small : n * 10 ^ 9 % 2 ^ 64 ≡ n * 10 ^ 9 = omega arith in rw (small, lt→ltb _ _ h)

str_eq-of : {a b : Str} → a ≡ b → str_eq a b ≡ true
str_eq-of {a} {b} e = (str_eq_iff a b).1 e

chosen_some : {A B E : Type 0} (r : Result E A) (f : A → B) → (r >>= λ a. ok (some (f a))) ≢ ok none
chosen_some (ok a) f e = cc
chosen_some (err e) f h = cc

module _ {T : DnsTypes} {S : Type 0} (env : SetupEnv T S) where
  -- After cfgValidation has passed, the switch over the provider never leaves it nil: it chooses one,
  -- or ends the process.
  pub choose_provider_lem :
      (viper : Viper) (s : S) → cfg_validation viper ≡ none → choose_provider env viper s ≢ ok none
  unfolding choose_provider
  choose_provider_lem viper s h = elim (cfg_validation-IsComplete viper h).provider [
    | inl (autodns, _, _) ↦ rw autodns (λ e. cc)
    | inr (inl mock) ↦
        rw mock (
          chosen_some (load_zones env (viper.get_string (bytes "mockZonePath")) s)
            env.mock_provider)
    | inr (inr mockjson) ↦ rw mockjson (
        chosen_some (load_zones env (viper.get_string (bytes "mockZonePath")) s)
          (λ zones. env.mockjson_provider zones (viper.get_string (bytes "mockZoneStatePath"))))
  ]

  line-parse :
      (lb : Loadbalancer)
      → IsLine lb
      → parse_loadbalancer_endpoint_list lb.name (map endpoint_protocol_string lb.endpoints) ≡ ok lb
  line-parse lb line =
      parse_loadbalancer_endpoint_list-map lb.name lb.endpoints
        (All-of_Item lb.endpoints line.items)
    where
      All-of_Item :
          (es : List _) → All IsItem es → All (λ e. IsEndpoint e.endpoint × Free b':' e.protocol) es
      All-of_Item [] h = tt
      All-of_Item (e ∷ es) h = ((h.0.address, h.0.no_colon), All-of_Item es h.1)

  parse_loadbalancers-map :
      (acc lbs : List Loadbalancer)
      → All IsLine lbs
      → parse_loadbalancers env acc (map table_entry lbs) ≡ ok (acc ++ lbs)
  unfolding parse_loadbalancers
  parse_loadbalancers-map acc [] h = ap ok (sym (append-nil acc))
  parse_loadbalancers-map acc (lb ∷ lbs) h =
      rw (line-parse lb h.0)
        (parse_loadbalancers-map (acc ++ lb ∷ []) lbs h.1 ∙ ap ok (append_assoc acc (lb ∷ []) lbs))

  -- Rows that all come from load balancers are the rows of some of them.
  rows_of :
      (lbs : List Loadbalancer) (rows : Dict (List Str))
      → ((x : Str × List Str) → Memᴰ x rows → Memᴰ x (map table_entry lbs))
      → (rs : List Loadbalancer) × (map table_entry rs ≡ rows)
        × ((lb : Loadbalancer) → Memᴰ lb rs → Memᴰ lb lbs)
  rows_of lbs [] h = ([], refl, λ lb m. elim m [ ])
  rows_of lbs (x ∷ rows) h =
      let (lb, m, e) = Memᴰ.of_map table_entry lbs (h x (Memᴰ.head refl)) in
      let (rs, same, part) = rows_of lbs rows (λ y k. h y (Memᴰ.tail k)) in
      (
        lb ∷ rs,
        rw (e, same),
        λ c k. elim k [
          | Memᴰ.head q ↦ subst (λ b. Memᴰ b lbs) (sym q) m
          | Memᴰ.tail k' ↦ part c k'
        ],
      )

  All-Mem :
      (P : Loadbalancer → Type 0) (lbs : List Loadbalancer) (lb : Loadbalancer)
      → All P lbs
      → Memᴰ lb lbs
      → P lb
  All-Mem P [] lb h m = elim m [ ]
  All-Mem P (x ∷ lbs) lb h (Memᴰ.head q) = subst P (sym q) h.0
  All-Mem P (x ∷ lbs) lb h (Memᴰ.tail m) = All-Mem P lbs lb h.1 m

  ok_inj : {A E : Type 0} (a b : A) → (let r : Result E A = ok a in r) ≡ ok b → a ≡ b
  ok_inj a b e = cc

  table_entry_inj :
      (a b : Loadbalancer) → IsLine a → IsLine b → table_entry a ≡ table_entry b → a ≡ b
  table_entry_inj a b la lb e = ok_inj a b (
      sym (line-parse a la)
      ∙ ap (λ x. parse_loadbalancer_endpoint_list x.0 x.1) e
      ∙ line-parse b lb)

  -- Whatever the order in which `range` visits the map, dnsManage has exactly the load balancers that
  -- the rows of the map were made of.
  pub parse_loadbalancers_lem :
      (lbs : List Loadbalancer)
      → All IsLine lbs
      → ((x : Str × List Str)
          → Memᴰ x (env.range (map table_entry lbs)) ↔ Memᴰ x (map table_entry lbs))
      → (rs : List Loadbalancer) × (parse_loadbalancers env [] (env.range (map table_entry lbs))
          ≡ ok rs)
        × ((lb : Loadbalancer) → Memᴰ lb rs ↔ Memᴰ lb lbs)
  parse_loadbalancers_lem lbs lines range =
      let (rs, same, part) = rows_of lbs (env.range (map table_entry lbs)) (λ x. (range x).0) in
      let lines_rs : All IsLine rs =
        All-of_Mem rs (λ lb m. All-Mem IsLine lbs lb lines (part lb m)) in
      (
        rs,
        ap (parse_loadbalancers env []) (sym same) ∙ parse_loadbalancers-map [] rs lines_rs,
        λ lb. (
          part lb,
          λ m.
              let row = (range (table_entry lb)).1 (Memᴰ.map table_entry m) in
              let (r, here, e) =
                Memᴰ.of_map table_entry rs (subst (Memᴰ (table_entry lb)) (sym same) row) in
              subst (λ b. Memᴰ b rs)
                (table_entry_inj r lb (All-Mem IsLine rs r lines_rs here)
                  (All-Mem IsLine lbs lb lines m) e)
                here,
        ),
      )
