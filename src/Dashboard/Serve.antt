-- ===== src/Dashboard/Serve.antt =====
-- The requests that `_DashboardHandler` of src/dashboard.py answers, and its stream of events.
use custom_network_proxy_ser.Base.{
  ℕ, Bool, true, false, Option, none, some, List, [], ◌∷◌, ◌++◌, if◌then◌else◌, length,
}
use custom_network_proxy_ser.Text.{Text, codes, same}
use custom_network_proxy_ser.Text.Number.{ℤ, show_ℤ, show}
use custom_network_proxy_ser.Text.Codec.{Bytes, encode}
use custom_network_proxy_ser.LogSchema.{Fields}
use custom_network_proxy_ser.Json.{Json, array, object, items_of, members_of, dumps}
use custom_network_proxy_ser.Logger.{Logger, get_recent_logs}
use custom_network_proxy_ser.Config.Accessors.{DashboardSettings}
use custom_network_proxy_ser.World.{Writer, send}
use custom_network_proxy_ser.Dashboard.{new_entries}
use custom_network_proxy_ser.Dashboard.Snapshot.{State, build_snapshot}

-- A response, less what `send_response` adds: the status, the headers and the body.
pub record Response : Type 0 where
  pub status : ℕ
  pub headers : List (Text × Text)
  pub body : Bytes

-- What a GET is answered with: a response, the stream with its headers, or `send_error`.
pub data Answer : Type 0 where
  response : Response → Answer
  events : List (Text × Text) → Answer
  error : ℕ → Answer

abbrev content_headers : Text → Bytes → List (Text × Text)
content_headers kind body =
    (codes "Content-Type", kind)
    ∷ (codes "Content-Length", show (length body))
    ∷ (codes "Cache-Control", codes "no-cache")
    ∷ []

abbrev content : Text → Bytes → Answer
content kind body =
    response (record { status = 200; headers = content_headers kind body; body = body })

unfoldable pub serve_html : Text → Answer
serve_html dashboard_html = content (codes "text/html; charset=utf-8") (encode dashboard_html)

unfoldable pub serve_metrics : (ℕ → ℕ → ℕ) → State → Answer
unfolding build_snapshot dumps
serve_metrics rate s = content (codes "application/json") (encode (dumps (build_snapshot rate s)))

abbrev pub entry_json : Fields → Json
entry_json fields = object (members_of fields)

unfoldable pub serve_logs : State → Answer
unfolding dumps get_recent_logs
serve_logs s =
    content (codes "application/json")
      (encode (dumps (array (items_of entry_json (get_recent_logs 100 s.logger)))))

abbrev sse_headers : List (Text × Text)
sse_headers =
    (codes "Content-Type", codes "text/event-stream")
    ∷ (codes "Cache-Control", codes "no-cache")
    ∷ (codes "Connection", codes "keep-alive")
    ∷ (codes "Access-Control-Allow-Origin", codes "*")
    ∷ []

-- `do_GET`; the page is that of src/dashboard_ui.py
unfoldable pub do_get : Text → (ℕ → ℕ → ℕ) → Text → State → Answer
unfolding serve_html serve_metrics serve_logs
do_get dashboard_html rate path s =
    if same path (codes "/")
    then serve_html dashboard_html
    else if same path (codes "/api/metrics")
    then serve_metrics rate s
    else if same path (codes "/api/logs")
    then serve_logs s
    else if same path (codes "/events")
    then events sse_headers
    else error 404

-- The text of one event of the stream.
abbrev pub sse_text : Text → Json → Text
sse_text event_type data_json =
    codes "event: " ++ event_type ++ 10 ∷ (codes "data: " ++ dumps data_json ++ 10 ∷ 10 ∷ [])

-- `_send_sse_event`; the flag says that it did not raise
unfoldable pub send_sse_event : Text → Json → Writer → Writer × Bool
unfolding send dumps encode
send_sse_event event_type data_json o = send (encode (sse_text event_type data_json)) o

unfoldable pub send_entries : List Fields → Writer → Writer × Bool
unfolding send_sse_event
send_entries [] o = (o, true)
send_entries (fields ∷ entries) o =
    let (o', sent) = send_sse_event (codes "log") (entry_json fields) o in
    elim sent [ true ↦ send_entries entries o' | false ↦ (o', false) ]

-- One pass of the loop sees the state at two moments: for the snapshot, and for the new entries.
pub record Pass : Type 0 where
  pub seen : State
  pub ring : Logger

-- The loop of `_serve_sse`, for as many passes as are given; an error of the socket ends it.
unfoldable pub serve_sse : (ℕ → ℕ → ℕ) → ℕ → List Pass → Writer → Writer
unfolding send_entries new_entries build_snapshot
serve_sse rate last_log_count [] o = o
serve_sse rate last_log_count (p ∷ passes) o =
    let (o', sent) = send_sse_event (codes "metrics") (build_snapshot rate p.seen) o in
    let (entries, count) = new_entries last_log_count p.ring in
    let (o'', all_sent) = send_entries entries o' in
    let rest = serve_sse rate count passes o'' in
    if sent then (if all_sent then rest else o'') else o'

-- `start_dashboard`: the port that the daemon thread serves, if any, and what is printed
unfoldable pub start_dashboard : DashboardSettings → Option ℤ × Text
unfolding show_ℤ
start_dashboard cfg =
    if cfg.enabled
    then (some cfg.port, codes "[+] Dashboard running at http://localhost:" ++ show_ℤ cfg.port)
    else (none, codes "[=] Dashboard disabled in proxy.conf")
