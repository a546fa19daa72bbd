-- ===== src/Main/Examples.antt =====
-- The checks of the configuration and the health endpoint at concrete values.
use dnslb.Base.{
  false, ◌+◌, ◌*◌, ◌^◌, ◌<◌, ◌≤◌, none, List, [], ◌∷◌, Str, bytes, str_eq, if◌then◌else◌, ◌≡◌, ◌↔◌,
  inl, refl, arith,
}
use dnslb.Flags.{str_in_str_slice}
use dnslb.Go.Decimal.{pos}
use dnslb.Main.Store.{Viper}
use dnslb.Main.Config.{cfg_validation, fatal_if, provider_validation, election_validation}
use dnslb.Main.Config.Laws.{IsComplete, cfg_validation-IsComplete, cfg_validation_mock}
use dnslb.Main.Health.{
  initial, HealthEvent, etcd_cycle, dns_cycle, started_leading, on_event, run_events, healthz,
}
use dnslb.Main.Health.Laws.{healthz_singleton, healthz_leader}

-- A singleton with one etcd and the provider autodns, or the provider mock.
abbrev texts_for : Str → Str → Str
texts_for provider key =
    if str_eq key (bytes "dnsProvider")
    then provider
    else if str_eq key (bytes "election")
    then bytes "singleton"
    else if str_eq key (bytes "autodns-username")
    then bytes "user"
    else if str_eq key (bytes "autodns-password")
    then bytes "secret"
    else []

abbrev singleton : Str → Viper
singleton provider = record {
  get = λ key. none;
  get_string = texts_for provider;
  get_string_slice = λ key. bytes "http://127.0.0.1:2379" ∷ [];
  get_bool = λ key. false;
  get_int = λ key. pos 0;
  get_string_map_string_slice = λ key. [];
}

valid : cfg_validation (singleton (bytes "autodns")) ≡ none
unfolding cfg_validation fatal_if provider_validation election_validation str_in_str_slice
valid = refl

cfg_validation-IsComplete_example : IsComplete (singleton (bytes "autodns"))
cfg_validation-IsComplete_example = cfg_validation-IsComplete (singleton (bytes "autodns")) valid

cfg_validation_mock_example : cfg_validation (singleton (bytes "mock")) ≡ none
cfg_validation_mock_example = cfg_validation_mock (singleton (bytes "mock")) refl refl refl refl

abbrev cycles : List HealthEvent
cycles = etcd_cycle 1000 ∷ dns_cycle 1001 ∷ []

recent : 1002 * 10 ^ 9 ≤ ((run_events cycles initial).last_dns_cycle + 60) * 10 ^ 9
unfolding run_events
recent = omega arith

healthz_singleton_example : (healthz (1002 * 10 ^ 9) (run_events cycles initial)).0 ≡ 500
healthz_singleton_example = healthz_singleton cycles (1002 * 10 ^ 9) (tt, (tt, tt)) (inl recent)

healthz_leader_example :
    ((healthz (1002 * 10 ^ 9) (run_events cycles (on_event started_leading initial))).0 ≡ 200) ↔ (
      (1002 * 10 ^ 9
        < ((run_events cycles (on_event started_leading initial)).last_dns_cycle + 60) * 10 ^ 9)
      × (1002 * 10 ^ 9
          < ((run_events cycles (on_event started_leading initial)).last_etcd_cycle + 60) * 10 ^ 9))
healthz_leader_example = healthz_leader initial cycles (1002 * 10 ^ 9) (tt, (tt, tt))
