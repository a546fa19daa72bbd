-- ===== src/Etcd/Examples.antt =====
-- The mock of etcd at a concrete map.
use dnslb.Base.{[], ◌∷◌, Str, bytes, Dict, lookup, err, ◌≡◌, refl, some}
use dnslb.Etcd.Mock.{returns, get, not_found}

abbrev stored : Dict Str
stored = (bytes "monitors", bytes "[]") ∷ []

unknown_key :
    get (bytes "dc1") (record { state = some stored })
    ≡ returns (err (not_found (bytes "dc1"))) (record { state = some stored })
unfolding get lookup
unknown_key = refl
