-- ===== src/Logger/Rotated.antt =====
-- What is read back from the log file of src/logger.py and its backups.
use custom_network_proxy_ser.Base.{
  ℕ, zero, suc, ◌≤◌, ◌≡◌, ◌⊎◌, refl, sym, ap, ◌∙◌, arith, inl, inr, true, Option, List, [], ◌∷◌,
  ◌++◌, append_assoc, append-nil, map, take, drop, All, leb, ltb, length, if_elim,
}
use custom_network_proxy_ser.Text.{Text}
use custom_network_proxy_ser.Text.Files.{lines_of}
use custom_network_proxy_ser.Json.Objects.{Raw, read_object}
use custom_network_proxy_ser.Logger.Format.{
  Rotation, Logged, Outputs, record_of, level_number, should_rollover, do_rollover, emit, handle,
  handle_all,
}
use custom_network_proxy_ser.Logger.Lines.{
  line_of, file_of, fields_of, read_object-file_of, file_of-append,
}

-- The level is not below that of the file's handler.
abbrev pub IsWritten : Logged → Type 0
IsWritten e = leb 10 (level_number e.level_name) ≡ true

abbrev pub no_outputs : Outputs
no_outputs = record { file = []; backups = []; stderr = [] }

-- Groups of events, the newest first, in the order of time.
abbrev in_order : List (List Logged) → List Logged
in_order [] = []
in_order (g ∷ gs) = in_order gs ++ g

in_order-take :
    (n : ℕ) (gs : List (List Logged)) → in_order gs ≡ in_order (drop n gs) ++ in_order (take n gs)
in_order-take zero gs = sym (append-nil (in_order gs))
in_order-take (suc n) [] = refl
in_order-take (suc n) (g ∷ gs) =
    ap (λ (es : List Logged). es ++ g) (in_order-take n gs)
    ∙ append_assoc (in_order (drop n gs)) (in_order (take n gs)) g

map-take : (n : ℕ) (gs : List (List Logged)) → map file_of (take n gs) ≡ take n (map file_of gs)
map-take zero gs = refl
map-take (suc n) [] = refl
map-take (suc n) (g ∷ gs) = ap (◌∷◌ (file_of g)) (map-take n gs)

-- The events so far: those that are lost, and those in the backups and the file.
record Rotated (n : ℕ) (es : List Logged) (file : Text) (backups : List Text) : Type 0 where
  older : List Logged
  groups : List (List Logged)
  current : List Logged
  all : es ≡ older ++ (in_order groups ++ current)
  in_backups : backups ≡ map file_of groups
  in_file : file ≡ file_of current
  full : (older ≡ []) ⊎ (length groups ≡ n)

append-Rotated :
    (n : ℕ) (es : List Logged) (e : Logged) (file : Text) (backups : List Text)
    → Rotated n es file backups
    → Rotated n (es ++ e ∷ []) (file ++ line_of e ++ 10 ∷ []) backups
append-Rotated n es e file backups h = record {
  older = h.older;
  groups = h.groups;
  current = h.current ++ e ∷ [];
  all =
      ap (λ (l : List Logged). l ++ e ∷ []) h.all
      ∙ append_assoc h.older (in_order h.groups ++ h.current) (e ∷ [])
      ∙ ap (◌++◌ h.older) (append_assoc (in_order h.groups) h.current (e ∷ []));
  in_backups = h.in_backups;
  in_file =
      append_assoc file (line_of e) (10 ∷ [])
      ∙ ap (λ (t : Text). t ++ (line_of e ++ 10 ∷ [])) h.in_file
      ∙ sym (file_of-append h.current (e ∷ []));
  full = h.full;
}

take_full : (n : ℕ) (gs : List (List Logged)) → n ≤ length gs → length (take n gs) ≡ n
take_full zero gs h = refl
take_full (suc n) [] h = absurd (omega arith)
take_full (suc n) (g ∷ gs) h = omega (arith, take_full n gs)

drop_none : (n : ℕ) (gs : List (List Logged)) → (n ≤ length gs) ⊎ (drop n gs ≡ [])
drop_none zero gs = inl (omega arith)
drop_none (suc n) [] = inr refl
drop_none (suc n) (g ∷ gs) = elim (drop_none n gs) [ inl h ↦ inl (omega arith) | inr h ↦ inr h ]

rollover-Rotated :
    (n : ℕ) (es : List Logged) (file : Text) (backups : List Text)
    → Rotated n es file backups
    → Rotated n es [] (take n (file ∷ backups))
rollover-Rotated n es file backups h =
    let gs = h.current ∷ h.groups in
    record {
      older = h.older ++ in_order (drop n gs);
      groups = take n gs;
      current = [];
      all =
          h.all
          ∙ ap (◌++◌ h.older) (in_order-take n gs)
          ∙ sym (append_assoc h.older (in_order (drop n gs)) (in_order (take n gs)))
          ∙ ap (◌++◌ (h.older ++ in_order (drop n gs))) (sym (append-nil (in_order (take n gs))));
      in_backups =
          ap (take n)
            (ap (λ (t : Text). t ∷ backups) h.in_file ∙ ap (◌∷◌ (file_of h.current)) h.in_backups)
          ∙ sym (map-take n gs);
      in_file = refl;
      full = elim (drop_none n gs) [
        | inl k ↦ inr (take_full n gs k)
        | inr k ↦ elim h.full [
          | inl e ↦ inl (rw (k, e) refl)
          | inr e ↦ inr (take_full n gs (omega (arith, e)))
        ]
      ];
    }

emit-Rotated :
    (rotation : Rotation) (es : List Logged) (e : Logged) (out : Outputs)
    → Rotated rotation.backup_count es out.file out.backups
    → Rotated rotation.backup_count
        (es ++ e ∷ [])
        (emit rotation (line_of e) out).file
        (emit rotation (line_of e) out).backups
unfolding emit do_rollover
emit-Rotated rotation es e out h =
    let n = rotation.backup_count in
    if_elim (λ (o : Outputs). Rotated n (es ++ e ∷ []) (o.file ++ line_of e ++ 10 ∷ []) o.backups)
      (should_rollover rotation (line_of e) out.file)
      (λ k. append-Rotated n es e _ _ (
        if_elim (λ (o : Outputs). Rotated n es o.file o.backups) (ltb 0 n)
          (λ l. rollover-Rotated n es out.file out.backups h) (λ l. h)))
      (λ k. append-Rotated n es e out.file out.backups h)

handle-Rotated :
    (rotation : Rotation) (threshold : ℕ) (es : List Logged) (e : Logged) (out : Outputs)
    → IsWritten e
    → Rotated rotation.backup_count es out.file out.backups
    → let out' =
        handle rotation e.now threshold
          (level_number e.level_name)
          (record_of e.level_name e.entry)
          out in
      Rotated rotation.backup_count (es ++ e ∷ []) out'.file out'.backups
unfolding handle
handle-Rotated rotation threshold es e out w h = rw w (emit-Rotated rotation es e out h)

handle_all-Rotated :
    (rotation : Rotation) (threshold : ℕ) (es later : List Logged) (out : Outputs)
    → All IsWritten later
    → Rotated rotation.backup_count es out.file out.backups
    → let out' = handle_all rotation threshold later out in
      Rotated rotation.backup_count (es ++ later) out'.file out'.backups
unfolding handle_all
handle_all-Rotated rotation threshold es [] out w h = rw (append-nil es) h
handle_all-Rotated rotation threshold es (e ∷ later) out (w, ws) h =
    rw (sym (append_assoc es (e ∷ []) later)) (
      handle_all-Rotated rotation threshold (es ++ e ∷ []) later _ ws
        (handle-Rotated rotation threshold es e out w h))

-- What is read from files, the newest first, in the order of time: each line as an object.
abbrev pub read_back : List Text → List (Option (List (Text × Raw)))
read_back [] = []
read_back (file ∷ files) = read_back files ++ map read_object (lines_of file)

map-append_fields :
    (a b : List Logged) → map fields_of (a ++ b) ≡ map fields_of a ++ map fields_of b
map-append_fields [] b = refl
map-append_fields (e ∷ a) b = ap (◌∷◌ (fields_of e)) (map-append_fields a b)

read_back-groups :
    (gs : List (List Logged)) → read_back (map file_of gs) ≡ map fields_of (in_order gs)
read_back-groups [] = refl
read_back-groups (g ∷ gs) =
    rw (read_back-groups gs, read_object-file_of g) (sym (map-append_fields (in_order gs) g))

-- The lines of the log file and its backups, from the oldest on and read as objects, are the
-- fields of the newest events in their order, and of all events unless as many backups are there
-- as are kept. The log starts empty, and the levels of the events reach the file.
pub read_object-handle_all :
    (rotation : Rotation) (threshold : ℕ) (es : List Logged)
    → All IsWritten es
    → let out = handle_all rotation threshold es no_outputs in
      (older : List Logged) × (newer : List Logged) × (es ≡ older ++ newer)
      × (read_back (out.file ∷ out.backups) ≡ map fields_of newer)
      × ((older ≡ []) ⊎ (length out.backups ≡ rotation.backup_count))
read_object-handle_all rotation threshold es w =
    let start : Rotated rotation.backup_count [] [] [] = record {
      older = [];
      groups = [];
      current = [];
      all = refl;
      in_backups = refl;
      in_file = refl;
      full = inl refl;
    } in
    let out = handle_all rotation threshold es no_outputs in
    let h : Rotated rotation.backup_count es out.file out.backups =
      handle_all-Rotated rotation threshold [] es no_outputs w start in
    (
      h.older,
      in_order h.groups ++ h.current,
      h.all,
      rw (h.in_file, h.in_backups) (read_back-groups (h.current ∷ h.groups)),
      elim h.full [
        | inl e ↦ inl e
        | inr e ↦ inr (ap length h.in_backups ∙ length-files h.groups ∙ e)
      ],
    )
  where
    length-files : (gs : List (List Logged)) → length (map file_of gs) ≡ length gs
    length-files [] = refl
    length-files (g ∷ gs) = ap suc (length-files gs)
