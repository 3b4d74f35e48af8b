-- ===== src/Logger/Ring.antt =====
-- The ring buffer holds the last entries that were logged, in order.
use mathlib.Core.List.{reverse}
use custom_network_proxy_ser.Base.{
  ℕ, ◌-◌, ◌≤◌, ◌<◌, ◌≡◌, refl, sym, ap, ◌∙◌, false, List, [], ◌∷◌, ◌++◌, map, arith, append-nil,
  append_assoc, ◌==◌, length, take, take_last, take_last-append, take_last-take_last, take-reverse,
  length-append, length-drop,
}
use custom_network_proxy_ser.Text.{Text}
use custom_network_proxy_ser.LogSchema.{Fields, to_dict}
use custom_network_proxy_ser.Logger.{
  Logger, Extra, entry_of, log_event, get_recent_logs, ring_buffer_size, empty_logger,
}

-- A call of `log_event`: the time, the message and the keyword arguments.
pub record Event : Type 0 where
  pub now : Text
  pub message : Text
  pub extra : Extra

abbrev pub dict_of : Event → Fields
dict_of e = to_dict (entry_of e.now e.message e.extra)

unfoldable pub log_all : List Event → Logger → Logger
log_all [] l = l
log_all (e ∷ es) l = log_all es (log_event e.now e.message e.extra l)

ring-log_event :
    (e : Event) (l : Logger)
    → (log_event e.now e.message e.extra l).log_ring_buffer
      ≡ take_last ring_buffer_size (l.log_ring_buffer ++ dict_of e ∷ [])
unfolding log_event
ring-log_event e l = refl

-- After any events the ring is the end of what it held and all that was logged since.
pub ring-log_all :
    (es : List Event) (l : Logger)
    → length l.log_ring_buffer ≤ ring_buffer_size
    → (log_all es l).log_ring_buffer
      ≡ take_last ring_buffer_size (l.log_ring_buffer ++ map dict_of es)
unfolding log_all
ring-log_all [] l h =
    let e : length (l.log_ring_buffer ++ []) - ring_buffer_size ≡ 0 =
      omega (arith, length-append l.log_ring_buffer []) in
    rw e (sym (append-nil l.log_ring_buffer))
ring-log_all (e ∷ es) l h =
    let l' = log_event e.now e.message e.extra l in
    let ring = l.log_ring_buffer ++ dict_of e ∷ [] in
    let small : length l'.log_ring_buffer ≤ ring_buffer_size =
      omega (
        arith,
        ap length (ring-log_event e l),
        length-drop (length ring - ring_buffer_size) ring,
      ) in
    ring-log_all es l' small
    ∙ ap (λ (r : List Fields). take_last ring_buffer_size (r ++ map dict_of es))
        (ring-log_event e l)
    ∙ take_last-append ring_buffer_size ring (map dict_of es)
    ∙ ap (take_last ring_buffer_size)
        (append_assoc l.log_ring_buffer (dict_of e ∷ []) (map dict_of es))

-- `get_recent_logs n` gives, for n from 1 to the size of the ring, the last n entries of all that
-- were logged since the start, the newest first, or all of them if there are fewer.
pub get_recent_logs-log_all :
    (n : ℕ) (es : List Event)
    → 0 < n
    → n ≤ ring_buffer_size
    → get_recent_logs n (log_all es empty_logger) ≡ take n (reverse (map dict_of es))
unfolding get_recent_logs
get_recent_logs-log_all n es pos small =
    let test : (n == 0) ≡ false = ground arith in
    rw (test, ring-log_all es empty_logger (omega arith))
      (ap reverse (take_last-take_last n ring_buffer_size (map dict_of es) small)
        ∙ sym (take-reverse n (map dict_of es)))

-- For n = 0 it gives the whole ring, where the last 0 entries are none.
pub get_recent_logs_zero : (l : Logger) → get_recent_logs 0 l ≡ reverse l.log_ring_buffer
unfolding get_recent_logs
get_recent_logs_zero l = refl
