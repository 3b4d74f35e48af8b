-- ===== src/Logger/Hosts.antt =====
-- The counter of a host is the number of its requests.
use mathlib.Core.Option
use custom_network_proxy_ser.Base.{ℕ, ◌+◌, ite, Option, List, [], ◌∷◌}
use custom_network_proxy_ser.Text.{Text, text_dec}
use custom_network_proxy_ser.Dict.{lookup}
use custom_network_proxy_ser.Logger.{Logger, record_host}

-- `host_counters.get(host, 0)`
abbrev pub counter : Text → Logger → ℕ
counter q l = Option.get_or (lookup text_dec q l.host_counters) 0

unfoldable pub record_all : List Text → Logger → Logger
record_all [] l = l
record_all (h ∷ hs) l = record_all hs (record_host h l)

-- How often a host stands in a list.
unfoldable pub occurrences : Text → List Text → ℕ
occurrences q [] = 0
occurrences q (h ∷ hs) = ite (text_dec q h) 1 0 + occurrences q hs
