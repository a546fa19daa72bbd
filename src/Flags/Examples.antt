-- ===== src/Flags/Examples.antt =====
-- The flag values at concrete texts.
use dnslb.Base.{[], ◌∷◌, Str, bytes, Dict, insert, ok, err, ◌≡◌, refl}
use dnslb.Go.Strings.{split}
use dnslb.Net.{EndpointProtocol}
use dnslb.Flags.{empty_name, map_flags_set}

abbrev stored : Dict Str
stored = (bytes "a.example", bytes "tcp://127.0.0.1:80") ∷ []

set_example :
    map_flags_set (bytes "dc1:10.0.0.1:6666") [] ≡ ok ((bytes "dc1", bytes "10.0.0.1:6666") ∷ [])
unfolding map_flags_set split insert
set_example = refl

set_short : map_flags_set (bytes "dc1:10.0.0.1") [] ≡ err empty_name
unfolding map_flags_set split
set_short = refl

abbrev web : EndpointProtocol
web = record { endpoint = record { ip = 127 ∷ 0 ∷ 0 ∷ 1 ∷ []; port = 80 }; protocol = bytes "http" }
