-- ===== src/Dashboard/Delivered.antt =====
-- The events that were logged reach a client of the stream of src/dashboard.py, until the ring is
-- full.
use custom_network_proxy_ser.Base.{
  ℕ, ◌+◌, ◌≤◌, ◌≡◌, refl, sym, ap, ◌∙◌, arith, Bool, List, [], ◌∷◌, ◌++◌, map, length,
  length-append, length-drop, ◌-◌, ltb, Bool-cases, inl, inr, if◌then◌else◌,
}
use custom_network_proxy_ser.Text.{Text, codes, same}
use custom_network_proxy_ser.Text.Codec.{Bytes, encode}
use custom_network_proxy_ser.LogSchema.{Fields}
use custom_network_proxy_ser.Json.{Json, dumps}
use custom_network_proxy_ser.Logger.{Logger, ring_buffer_size}
use custom_network_proxy_ser.Logger.Ring.{Event, dict_of, log_all, ring-log_all}
use custom_network_proxy_ser.Dashboard.{new_entries}
use custom_network_proxy_ser.Dashboard.Snapshot.{State}
use custom_network_proxy_ser.Dashboard.Serve.{entry_json, Pass, serve_sse}
use custom_network_proxy_ser.Dashboard.Events.{event_source, log_events, told}
use custom_network_proxy_ser.Dashboard.Stream.{length-map, new_entries_until_full}
use custom_network_proxy_ser.Dashboard.Told.{taking, dumped, event_source-serve_sse}

-- What happens up to a pass: the events that are logged, and the state that the snapshot sees.
pub record Meanwhile : Type 0 where
  pub logged : List Event
  pub seen : State

-- The passes, from a logger on.
abbrev pub passes_from : Logger → List Meanwhile → List Pass
passes_from l [] = []
passes_from l (m ∷ ms) =
    record { seen = m.seen; ring = log_all m.logged l } ∷ passes_from (log_all m.logged l) ms

abbrev pub all_logged : List Meanwhile → List Event
all_logged [] = []
all_logged (m ∷ ms) = m.logged ++ all_logged ms

-- The data of the events of type `log`.
abbrev pub log_data : List (Text × Text) → List Text
log_data [] = []
log_data ((kind, d) ∷ es) = if same kind (codes "log") then d ∷ log_data es else log_data es

abbrev pub entry_text : Event → Text
entry_text e = dumps (entry_json (dict_of e))

log_data-log_events :
    (es : List Event) (rest : List (Text × Json))
    → log_data (map dumped (log_events (map dict_of es) ++ rest))
      ≡ map entry_text es ++ log_data (map dumped rest)
unfolding codes same
log_data-log_events [] rest = refl
log_data-log_events (e ∷ es) rest = ap (◌∷◌ (entry_text e)) (log_data-log_events es rest)

length-ring :
    (es : List Event) (l : Logger)
    → length l.log_ring_buffer + length es ≤ ring_buffer_size
    → length (log_all es l).log_ring_buffer ≡ length l.log_ring_buffer + length es
length-ring es l room =
    let all = l.log_ring_buffer ++ map dict_of es in
    omega (
      arith,
      ap length (ring-log_all es l (omega arith)),
      length-drop (length all - ring_buffer_size) all,
      length-append l.log_ring_buffer (map dict_of es),
      length-map es,
    )

new_entries-count :
    (last : ℕ) (l : Logger)
    → last ≤ length l.log_ring_buffer
    → (new_entries last l).1 ≡ length l.log_ring_buffer
unfolding new_entries
new_entries-count last l h = elim (Bool-cases (ltb last (length l.log_ring_buffer))) [
  | inl e ↦ rw e refl
  | inr e ↦
      let same_length : last ≡ length l.log_ring_buffer = ground (arith, e, h) in
      rw same_length (ground arith)
]

-- One pass: what it tells of the log, and what the rest tells.
log_data-pass :
    (rate : ℕ → ℕ → ℕ) (last count : ℕ) (p : Pass) (ps : List Pass) (es : List Event)
    → (new_entries last p.ring).0 ≡ map dict_of es
    → (new_entries last p.ring).1 ≡ count
    → log_data (map dumped (told rate last (p ∷ ps)))
      ≡ map entry_text es ++ log_data (map dumped (told rate count ps))
log_data-pass rate last count p ps es e c =
    unfold told in
    unfold codes in
    unfold same in
    ap
      (λ (fs : List Fields).
        log_data (map dumped (log_events fs ++ told rate (new_entries last p.ring).1 ps)))
      e
    ∙ ap (λ (n : ℕ). log_data (map dumped (log_events (map dict_of es) ++ told rate n ps))) c
    ∙ log_data-log_events es (told rate count ps)

map-append :
    (es fs : List Event) → map entry_text (es ++ fs) ≡ map entry_text es ++ map entry_text fs
map-append [] fs = refl
map-append (e ∷ es) fs = ap (◌∷◌ (entry_text e)) (map-append es fs)

log_data-told :
    (rate : ℕ → ℕ → ℕ) (l : Logger) (ms : List Meanwhile)
    → length l.log_ring_buffer + length (all_logged ms) ≤ ring_buffer_size
    → log_data (map dumped (told rate (length l.log_ring_buffer) (passes_from l ms)))
      ≡ map entry_text (all_logged ms)
log_data-told rate l [] room = unfold told in refl
log_data-told rate l (m ∷ ms) room =
    let l' = log_all m.logged l in
    let parts = length-append m.logged (all_logged ms) in
    let grown : length l'.log_ring_buffer ≡ length l.log_ring_buffer + length m.logged =
      length-ring m.logged l (omega (arith, parts)) in
    log_data-pass rate (length l.log_ring_buffer) (length l'.log_ring_buffer)
      (record { seen = m.seen; ring = l' }) (passes_from l' ms) m.logged
      (new_entries_until_full m.logged l (omega (arith, parts)))
      (new_entries-count (length l.log_ring_buffer) l' (omega (arith, grown)))
    ∙ ap (◌++◌ (map entry_text m.logged)) (log_data-told rate l' ms (omega (arith, grown, parts)))
    ∙ sym (map-append m.logged (all_logged ms))

-- A client that takes all it is sent reads, as events of type `log`, each dumped, exactly the
-- entries that were logged from the opening of the stream to its last pass, each once and in
-- order, as long as the ring has room for them.
pub log_data-serve_sse :
    (rate : ℕ → ℕ → ℕ) (l : Logger) (ms : List Meanwhile) (old : Bytes) (shut : Bool)
    → length l.log_ring_buffer + length (all_logged ms) ≤ ring_buffer_size
    → (stream : Text) × ((serve_sse rate
          (length l.log_ring_buffer)
          (passes_from l ms)
          (taking old shut)).delivered
        ≡ old ++ encode stream)
      × (log_data (event_source stream) ≡ map entry_text (all_logged ms))
log_data-serve_sse rate l ms old shut room =
    let (stream, sent, read) =
      event_source-serve_sse rate (length l.log_ring_buffer) (passes_from l ms) old shut in
    (stream, sent, ap log_data read ∙ log_data-told rate l ms room)
