-- ===== src/LogSchema.antt =====
-- src/log_schema.py: the entry that every log event is built from. A latency is in tenths of a
-- millisecond, to which its caller rounds it. The current time is an argument.
use custom_network_proxy_ser.Base.{
  ℕ, ◌/◌, ◌%◌, Bool, false, ◌&&◌, ◌||◌, not, Option, none, some, List, [], ◌∷◌, ◌++◌, ◌==◌,
  if◌then◌else◌, take,
}
use custom_network_proxy_ser.Text.{Text, codes, join}
use custom_network_proxy_ser.Text.Number.{ℤ, pos, negsuc, show, show_ℤ}

pub record LogEntry : Type 0 where
  pub event : Text
  pub message : Text
  pub timestamp : Text
  pub level : Text
  pub request_id : Option Text
  pub client_ip : Option Text
  pub method : Option Text
  pub host : Option Text
  pub port : Option ℤ
  pub path : Option Text
  pub action : Option Text
  pub status_code : Option ℤ
  pub latency_ms : Option ℕ
  pub bytes_transferred : Option ℕ

-- A value of the dict: a text, a whole number, or a number of tenths.
pub data Value : Type 0 where
  text : Text → Value
  int : ℤ → Value
  tenths : ℕ → Value

abbrev pub Fields : Type 0
Fields = List (Text × Value)

-- one round of the comprehension: the field, unless its value is `None`
abbrev pub field {ℓ} : {A : Type ℓ} → (A → Value) → Text → Option A → Fields → Fields
field f key none rest = rest
field f key (some v) rest = (key, f v) ∷ rest

abbrev natural : ℕ → Value
natural n = int (pos n)

unfoldable pub to_dict : LogEntry → Fields
to_dict e =
    (codes "event", text e.event)
    ∷ (codes "message", text e.message)
    ∷ (codes "timestamp", text e.timestamp)
    ∷ (codes "level", text e.level)
    ∷ field text (codes "request_id") e.request_id (
        field text (codes "client_ip") e.client_ip (
          field text (codes "method") e.method (
            field text (codes "host") e.host (
              field int (codes "port") e.port (
                field text (codes "path") e.path (
                  field text (codes "action") e.action (
                    field int (codes "status_code") e.status_code (
                      field tenths (codes "latency_ms") e.latency_ms
                        (field natural (codes "bytes_transferred") e.bytes_transferred [])))))))))

-- `if value:` for a text that may be missing: the text, if it is not empty.
abbrev pub truthy : Option Text → Option Text
truthy none = none
truthy (some []) = none
truthy (some (c ∷ s)) = some (c ∷ s)

abbrev part : (Text → Text) → Option Text → List Text
part f o = elim (truthy o) [ none ↦ [] | some s ↦ f s ∷ [] ]

abbrev is_zero : ℤ → Bool
is_zero (pos n) = n == 0
is_zero (negsuc n) = false

-- `port not in (80, 443)`
abbrev is_default_port : ℤ → Bool
is_default_port (pos n) = n == 80 || n == 443
is_default_port (negsuc n) = false

-- `if self.port and self.port not in (80, 443)`
abbrev port_suffix : Option ℤ → Text
port_suffix none = []
port_suffix (some p) = if not (is_zero p) && not (is_default_port p) then b':' ∷ show_ℤ p else []

abbrev path_suffix : Option Text → Text
path_suffix o = elim (truthy o) [ none ↦ [] | some s ↦ s ]

abbrev show_tenths : ℕ → Text
show_tenths n = show (n / 10) ++ b'.' ∷ show (n % 10)

abbrev status_part : Option ℤ → List Text
status_part none = []
status_part (some c) = if is_zero c then [] else (b'[' ∷ show_ℤ c ++ b']' ∷ []) ∷ []

unfoldable pub human_parts : LogEntry → List Text
human_parts e =
    part (λ s. b'[' ∷ take 8 s ++ b']' ∷ []) e.request_id
    ++ part (λ s. s) e.client_ip
    ++ part (λ s. s) e.method
    ++ part (λ s. s ++ port_suffix e.port ++ path_suffix e.path) e.host
    ++ part (λ s. codes "→ " ++ s) e.action
    ++ status_part e.status_code
    ++ elim e.bytes_transferred [ none ↦ [] | some n ↦ (show n ++ codes "B") ∷ [] ]
    ++ elim e.latency_ms [ none ↦ [] | some n ↦ (show_tenths n ++ codes "ms") ∷ [] ]

unfoldable pub to_human : LogEntry → Text
unfolding human_parts
to_human e = elim (human_parts e) [ [] ↦ e.message | p ∷ ps ↦ join (codes " ") (p ∷ ps) ]
