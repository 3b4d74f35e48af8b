-- ===== src/Dashboard/Told.antt =====
-- The stream of events that a client reads is what the passes of the loop had to tell.
use custom_network_proxy_ser.Base.{
  ℕ, ◌≡◌, refl, sym, ap, ◌∙◌, Bool, true, false, List, [], ◌∷◌, ◌++◌, append_assoc, append-nil, map,
  All, ◌==◌, ◌||◌, arith,
}
use custom_network_proxy_ser.Text.{Text, codes, same, split_once, has_char, join}
use custom_network_proxy_ser.Text.Trim.{has_char-append}
use custom_network_proxy_ser.Text.Codec.{Bytes, encode, encode_char}
use custom_network_proxy_ser.Text.Files.{lines_of, cut_lines}
use custom_network_proxy_ser.Text.Lines.{translate_id, cut_lines-append, no_cr_after}
use custom_network_proxy_ser.LogSchema.{Fields}
use custom_network_proxy_ser.Json.{Json, dumps}
use custom_network_proxy_ser.Json.Line.{printable, has_char-printable, printable-dumps}
use custom_network_proxy_ser.World.{Writer}
use custom_network_proxy_ser.Dashboard.{new_entries}
use custom_network_proxy_ser.Dashboard.Snapshot.{build_snapshot}
use custom_network_proxy_ser.Dashboard.Serve.{sse_text, entry_json, send_entries, Pass, serve_sse}
use custom_network_proxy_ser.Dashboard.Events.{
  nothing, kind_of, read_lines, event_source, log_events, told, stream_text,
}

-- The type of an event is a text without control characters that is not empty.
abbrev IsKind : Text → Type 0
IsKind kind = (printable kind ≡ true) × (kind_of kind ≡ kind)

abbrev AreTold : List (Text × Json) → Type 0
AreTold = All (λ e. IsKind e.0)

abbrev event_line : Text → Text
event_line kind = codes "event: " ++ kind

abbrev data_line : Json → Text
data_line j = codes "data: " ++ dumps j

event_line-has_char :
    (c : ℕ) (kind : Text)
    → (c == 10 || c == 13) ≡ true
    → printable kind ≡ true
    → has_char c (event_line kind) ≡ false
unfolding codes
event_line-has_char c kind h k =
    has_char-append c (codes "event: ") kind
    ∙ rw
        (
          has_char-printable c kind (ground (arith, h)) k,
          has_char-printable c (codes "event: ") (ground (arith, h)) refl,
        )
        refl

data_line-has_char :
    (c : ℕ) (j : Json) → (c == 10 || c == 13) ≡ true → has_char c (data_line j) ≡ false
unfolding codes
data_line-has_char c j h =
    has_char-append c (codes "data: ") (dumps j)
    ∙ rw
        (
          has_char-printable c (dumps j) (ground (arith, h)) (printable-dumps j),
          has_char-printable c (codes "data: ") (ground (arith, h)) refl,
        )
        refl

sse_text_lines :
    (kind : Text) (j : Json) (rest : Text)
    → sse_text kind j ++ rest ≡ event_line kind ++ 10 ∷ (data_line j ++ 10 ∷ 10 ∷ rest)
unfolding codes
sse_text_lines kind j rest = simp append_assoc

cut_lines-sse_text :
    (kind : Text) (j : Json) (rest : Text)
    → printable kind ≡ true
    → cut_lines (sse_text kind j ++ rest) ≡ event_line kind ∷ data_line j ∷ [] ∷ cut_lines rest
cut_lines-sse_text kind j rest k =
    ap cut_lines (sse_text_lines kind j rest)
    ∙ cut_lines-append (event_line kind) (data_line j ++ 10 ∷ 10 ∷ rest)
        (event_line-has_char 10 kind refl k)
    ∙ ap (◌∷◌ (event_line kind)) (
        cut_lines-append (data_line j) (10 ∷ rest) (data_line-has_char 10 j refl)
        ∙ ap (◌∷◌ (data_line j)) (unfold cut_lines in refl))

no_cr-stream_text : (es : List (Text × Json)) → AreTold es → has_char 13 (stream_text es) ≡ false
no_cr-stream_text [] h = unfold has_char in refl
no_cr-stream_text ((kind, j) ∷ es) ((k, n), h) =
    ap (has_char 13) (sse_text_lines kind j (stream_text es))
    ∙ has_char-append 13 (event_line kind) (10 ∷ (data_line j ++ 10 ∷ 10 ∷ stream_text es))
    ∙ rw (event_line-has_char 13 kind refl k) (
        no_cr_after (data_line j ++ 10 ∷ 10 ∷ stream_text es)
        ∙ has_char-append 13 (data_line j) (10 ∷ 10 ∷ stream_text es)
        ∙ rw (data_line-has_char 13 j refl) (
            no_cr_after (10 ∷ stream_text es)
            ∙ no_cr_after (stream_text es)
            ∙ no_cr-stream_text es h))

read_lines-event :
    (kind : Text) (j : Json) (ls : List Text)
    → read_lines nothing (event_line kind ∷ data_line j ∷ [] ∷ ls)
      ≡ (kind_of kind, dumps j) ∷ read_lines nothing ls
unfolding read_lines codes split_once same join
read_lines-event kind j ls = refl

abbrev pub dumped : Text × Json → Text × Text
dumped (kind, j) = (kind, dumps j)

read_lines-stream_text :
    (es : List (Text × Json))
    → AreTold es
    → read_lines nothing (cut_lines (stream_text es)) ≡ map dumped es
read_lines-stream_text [] h = unfold read_lines cut_lines in refl
read_lines-stream_text ((kind, j) ∷ es) ((k, n), h) =
    ap (read_lines nothing) (cut_lines-sse_text kind j (stream_text es) k)
    ∙ read_lines-event kind j (cut_lines (stream_text es))
    ∙ rw (n, read_lines-stream_text es h) refl

log_events-AreTold :
    (entries : List Fields) (es : List (Text × Json))
    → AreTold es
    → AreTold (log_events entries ++ es)
log_events-AreTold [] es h = h
log_events-AreTold (fields ∷ entries) es h =
    (unfold codes in (refl, refl), log_events-AreTold entries es h)

told-AreTold : (rate : ℕ → ℕ → ℕ) (last : ℕ) (passes : List Pass) → AreTold (told rate last passes)
unfolding told
told-AreTold rate last [] = tt
told-AreTold rate last (p ∷ passes) =
    let (entries, count) = new_entries last p.ring in
    (
      unfold codes in (refl, refl),
      log_events-AreTold entries (told rate count passes) (told-AreTold rate count passes),
    )

encode-append : (s t : Text) → encode (s ++ t) ≡ encode s ++ encode t
unfolding encode
encode-append [] t = refl
encode-append (c ∷ s) t =
    ap (λ (b : Bytes). encode_char c ++ b) (encode-append s t)
    ∙ sym (append_assoc (encode_char c) (encode s) (encode t))

-- A client that takes all that it is sent.
abbrev pub taking : Bytes → Bool → Writer
taking old shut = record { delivered = old; script = []; shut = shut }

-- What was delivered, and two texts more.
delivered_twice :
    (old : Bytes) (s t : Text) → (old ++ encode s) ++ encode t ≡ old ++ encode (s ++ t)
delivered_twice old s t =
    append_assoc old (encode s) (encode t) ∙ ap (λ (b : Bytes). old ++ b) (sym (encode-append s t))

send_entries-taking :
    (entries : List Fields) (old : Bytes) (shut : Bool)
    → send_entries entries (taking old shut)
      ≡ (taking (old ++ encode (stream_text (log_events entries))) shut, true)
unfolding send_entries
send_entries-taking [] old shut =
    ap (λ (b : Bytes). (taking b shut, true))
      (sym (append-nil old) ∙ ap (λ (b : Bytes). old ++ b) (unfold encode in refl))
send_entries-taking (fields ∷ entries) old shut =
    send_entries-taking entries (old ++ encode (sse_text (codes "log") (entry_json fields))) shut
    ∙ ap (λ (b : Bytes). (taking b shut, true))
        (delivered_twice old (sse_text (codes "log") (entry_json fields))
          (stream_text (log_events entries)))

stream_text-append :
    (es fs : List (Text × Json)) → stream_text (es ++ fs) ≡ stream_text es ++ stream_text fs
stream_text-append [] fs = refl
stream_text-append ((kind, j) ∷ es) fs =
    ap (λ (t : Text). sse_text kind j ++ t) (stream_text-append es fs)
    ∙ sym (append_assoc (sse_text kind j) (stream_text es) (stream_text fs))

serve_sse-taking :
    (rate : ℕ → ℕ → ℕ) (last : ℕ) (passes : List Pass) (old : Bytes) (shut : Bool)
    → serve_sse rate last passes (taking old shut)
      ≡ taking (old ++ encode (stream_text (told rate last passes))) shut
unfolding serve_sse told
serve_sse-taking rate last [] old shut =
    ap (λ (b : Bytes). taking b shut)
      (sym (append-nil old) ∙ ap (λ (b : Bytes). old ++ b) (unfold encode in refl))
serve_sse-taking rate last (p ∷ passes) old shut =
    let (entries, count) = new_entries last p.ring in
    let j = build_snapshot rate p.seen in
    let first = sse_text (codes "metrics") j in
    let logs = stream_text (log_events entries) in
    let later = told rate count passes in
    rw
      (
        send_entries-taking entries (old ++ encode first) shut,
        serve_sse-taking rate count passes ((old ++ encode first) ++ encode logs) shut,
      )
      (ap (λ (b : Bytes). taking b shut)
        (ap (λ (b : Bytes). b ++ encode (stream_text later)) (delivered_twice old first logs)
          ∙ delivered_twice old (first ++ logs) (stream_text later)
          ∙ ap (λ (t : Text). old ++ encode t)
              (append_assoc first logs (stream_text later)
                ∙ ap (λ (t : Text). first ++ t)
                    (sym (stream_text-append (log_events entries) later)))))

-- A client of the stream that takes all it is sent is delivered the UTF-8 encoding of a text,
-- and the events that it reads from that text are, pass by pass, the snapshot and the new log
-- entries, each dumped, under their types.
pub event_source-serve_sse :
    (rate : ℕ → ℕ → ℕ) (last : ℕ) (passes : List Pass) (old : Bytes) (shut : Bool)
    → (stream : Text) × ((serve_sse rate last passes (taking old shut)).delivered
        ≡ old ++ encode stream)
      × (event_source stream ≡ map dumped (told rate last passes))
unfolding event_source lines_of
event_source-serve_sse rate last passes old shut =
    let es = told rate last passes in
    let h = told-AreTold rate last passes in
    (
      stream_text es,
      ap (λ (o : Writer). o.delivered) (serve_sse-taking rate last passes old shut),
      ap (λ (t : Text). read_lines nothing (cut_lines t))
            (translate_id (stream_text es) (no_cr-stream_text es h))
          ∙ read_lines-stream_text es h,
    )
