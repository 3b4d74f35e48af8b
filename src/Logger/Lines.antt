-- ===== src/Logger/Lines.antt =====
-- The log file has a line of JSON for each event, from which its fields are read back.
use custom_network_proxy_ser.Base.{
  ℕ, Option, ◌≡◌, refl, sym, ap, ◌∙◌, arith, false, some, List, [], ◌∷◌, ◌++◌, append_assoc, map,
  drop, leb,
}
use custom_network_proxy_ser.Text.{Text, codes, has_char}
use custom_network_proxy_ser.Text.Trim.{has_char-append}
use custom_network_proxy_ser.Text.Files.{lines_of, cut_lines}
use custom_network_proxy_ser.Text.Lines.{translate_id, cut_lines-append, no_cr_after}
use custom_network_proxy_ser.LogSchema.{LogEntry, Fields, text, to_dict}
use custom_network_proxy_ser.Json.{object, members_of, dumps}
use custom_network_proxy_ser.Json.Line.{has_char-printable, printable-dumps}
use custom_network_proxy_ser.Json.Objects.{Raw, read_object, raw_pair, read_object-dumps}
use custom_network_proxy_ser.Logger.Format.{Logged, json_format, record_of}

abbrev pub line_of : Logged → Text
line_of e = json_format e.now (record_of e.level_name e.entry)

-- The lines, each with its end.
abbrev pub file_of : List Logged → Text
file_of [] = []
file_of (e ∷ es) = line_of e ++ 10 ∷ file_of es

line_of_dict : (e : Logged) → line_of e ≡ dumps (object (members_of (to_dict e.entry)))
unfolding json_format record_of to_dict
line_of_dict e = refl

line_of-has_char : (c : ℕ) (e : Logged) → leb 32 c ≡ false → has_char c (line_of e) ≡ false
line_of-has_char c e h =
    ap (has_char c) (line_of_dict e)
    ∙ has_char-printable c (dumps (object (members_of (to_dict e.entry)))) (ground (arith, h))
        (printable-dumps (object (members_of (to_dict e.entry))))

to_dict_first :
    (entry : LogEntry)
    → (fields : Fields) × (to_dict entry ≡ (codes "event", text entry.event) ∷ fields)
unfolding to_dict
to_dict_first entry = (drop 1 (to_dict entry), refl)

read_object-line_of : (e : Logged) → read_object (line_of e) ≡ some (map raw_pair (to_dict e.entry))
read_object-line_of e =
    let (fields, first) = to_dict_first e.entry in
    ap read_object (line_of_dict e)
    ∙ rw first (read_object-dumps (codes "event") (text e.entry.event) fields)

no_cr-file_of : (es : List Logged) → has_char 13 (file_of es) ≡ false
no_cr-file_of [] = unfold has_char in refl
no_cr-file_of (e ∷ es) =
    has_char-append 13 (line_of e) (10 ∷ file_of es)
    ∙ rw (line_of-has_char 13 e refl) (no_cr_after (file_of es) ∙ no_cr-file_of es)

cut_lines-file_of : (es : List Logged) → cut_lines (file_of es) ≡ map line_of es
cut_lines-file_of [] = unfold cut_lines in refl
cut_lines-file_of (e ∷ es) =
    cut_lines-append (line_of e) (file_of es) (line_of-has_char 10 e refl)
    ∙ ap (◌∷◌ (line_of e)) (cut_lines-file_of es)

-- The fields of the events, as they are read from JSON.
abbrev pub fields_of : Logged → Option (List (Text × Raw))
fields_of e = some (map raw_pair (to_dict e.entry))

read_object-lines : (es : List Logged) → map read_object (map line_of es) ≡ map fields_of es
read_object-lines [] = refl
read_object-lines (e ∷ es) = rw (read_object-line_of e, read_object-lines es) refl

-- The lines of a file, read as objects, are the fields of the events that were written to it.
pub read_object-file_of :
    (es : List Logged) → map read_object (lines_of (file_of es)) ≡ map fields_of es
unfolding lines_of
read_object-file_of es =
    ap (λ (t : Text). map read_object (cut_lines t)) (translate_id (file_of es) (no_cr-file_of es))
    ∙ ap (map read_object) (cut_lines-file_of es)
    ∙ read_object-lines es

pub file_of-append : (a b : List Logged) → file_of (a ++ b) ≡ file_of a ++ file_of b
file_of-append [] b = refl
file_of-append (e ∷ a) b =
    ap (λ (t : Text). line_of e ++ 10 ∷ t) (file_of-append a b)
    ∙ sym (append_assoc (line_of e) (10 ∷ file_of a) (file_of b))
