-- ===== src/Dns/Debug.antt =====
-- debugDnsProvider.go: a provider that logs each call, passes it on, and logs its outcome.
use dnslb.Base.{List, [], ◌∷◌, ◌++◌, Str, Result}
use dnslb.Dns.{DnsTypes, Zone, DnsError, DnsProvider}

module _ (T : DnsTypes) where
  -- The entries of the log, with their fields.
  pub data LogEntry : Type 0 where
    calling_create : Zone T → LogEntry
    called_create : Zone T → Result DnsError (Unit {0}) → LogEntry
    calling_get : Str → LogEntry
    called_get : Result DnsError (Zone T) → LogEntry
    calling_list : LogEntry
    called_list : Result DnsError (List Str) → LogEntry
    calling_update : Zone T → LogEntry
    called_update : Result DnsError (Unit {0}) → LogEntry
    calling_delete : Str → LogEntry
    called_delete : Str → Result DnsError (Unit {0}) → LogEntry

module _ {T : DnsTypes} {S : Type 0} where
  -- The body of each method: the state of the wrapped provider, and the log.
  unfoldable pub logged :
      {A : Type 0}
      → LogEntry T
      → (Result DnsError A → LogEntry T)
      → (S → Result DnsError A × S)
      → S × List (LogEntry T)
      → Result DnsError A × (S × List (LogEntry T))
  logged before after call (s, log) =
      let (r, s') = call s in (r, (s', log ++ before ∷ after r ∷ []))

  -- NewDebugDNSProvider, with the five methods.
  unfoldable pub debug_provider : DnsProvider T S → DnsProvider T (S × List (LogEntry T))
  unfolding logged
  debug_provider p = record {
    create_zone = λ z. logged (calling_create z) (called_create z) (p.create_zone z);
    get_zone = λ n. logged (calling_get n) called_get (p.get_zone n);
    list_zones = logged calling_list called_list p.list_zones;
    update_zone = λ z. logged (calling_update z) called_update (p.update_zone z);
    delete_zone = λ n. logged (calling_delete n) (called_delete n) (p.delete_zone n);
  }
