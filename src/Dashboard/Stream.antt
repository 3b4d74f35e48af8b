-- ===== src/Dashboard/Stream.antt =====
-- The stream sends what was logged since its last round, until the ring is full.
use custom_network_proxy_ser.Base.{
  ℕ, suc, true, lt→ltb, ◌+◌, ◌-◌, ◌≤◌, ◌≡◌, refl, ap, ◌∙◌, List, [], ◌∷◌, ◌++◌, map, arith, length,
  drop, take_last, drop-append, drop_all, length-append, length-drop, ltb,
}
use custom_network_proxy_ser.LogSchema.{Fields}
use custom_network_proxy_ser.Logger.{Logger, ring_buffer_size}
use custom_network_proxy_ser.Logger.Ring.{Event, dict_of, log_all, ring-log_all}
use custom_network_proxy_ser.Dashboard.{new_entries}

pub length-map : (es : List Event) → length (map dict_of es) ≡ length es
length-map [] = refl
length-map (e ∷ es) = ap suc (length-map es)

take_last_appended :
    {A : Type 0} (xs ys : List A) (c : ℕ) → c ≡ length ys → take_last c (xs ++ ys) ≡ ys
take_last_appended xs ys c e =
    let k : length (xs ++ ys) - c ≡ length xs = omega (arith, length-append xs ys) in
    ap (λ (n : ℕ). drop n (xs ++ ys)) k
    ∙ drop-append (length xs) xs ys (omega arith)
    ∙ ap (λ (zs : List _). zs ++ ys) (drop_all (length xs) xs (omega arith))

new_entries_appended :
    (xs ys : List Fields) (l : Logger)
    → l.log_ring_buffer ≡ xs ++ ys
    → (new_entries (length xs) l).0 ≡ ys
unfolding new_entries
new_entries_appended xs [] l e =
    let n : length l.log_ring_buffer ≡ length xs =
      omega (arith, ap length e, length-append xs []) in
    rw n (ground arith)
new_entries_appended xs (y ∷ ys) l e =
    let n : length l.log_ring_buffer ≡ length xs + suc (length ys) =
      omega (arith, ap length e, length-append xs (y ∷ ys)) in
    let more : ltb (length xs) (length l.log_ring_buffer) ≡ true = lt→ltb _ _ (omega arith) in
    rw (more, e) (take_last_appended xs (y ∷ ys) _ (omega (arith, length-append xs (y ∷ ys))))

-- While the ring is not full, a round sends exactly the entries logged since the last round.
pub new_entries_until_full :
    (es : List Event) (l : Logger)
    → length l.log_ring_buffer + length es ≤ ring_buffer_size
    → (new_entries (length l.log_ring_buffer) (log_all es l)).0 ≡ map dict_of es
new_entries_until_full es l room =
    let all = l.log_ring_buffer ++ map dict_of es in
    let none_dropped : length all - ring_buffer_size ≡ 0 =
      omega (arith, length-append l.log_ring_buffer (map dict_of es), length-map es) in
    new_entries_appended l.log_ring_buffer (map dict_of es) (log_all es l)
      (ring-log_all es l (omega arith) ∙ ap (λ (n : ℕ). drop n all) none_dropped)

-- Once the ring is full, no later round sends anything, whatever is logged meanwhile.
pub new_entries_when_full :
    (es : List Event) (l : Logger)
    → length l.log_ring_buffer ≡ ring_buffer_size
    → new_entries ring_buffer_size (log_all es l) ≡ ([], ring_buffer_size)
unfolding new_entries
new_entries_when_full es l full =
    let e : length (log_all es l).log_ring_buffer ≡ ring_buffer_size = omega (
      arith,
      ap length (ring-log_all es l (omega arith)),
      length-append l.log_ring_buffer (map dict_of es),
      length-drop (length (l.log_ring_buffer ++ map dict_of es) - ring_buffer_size)
          (l.log_ring_buffer ++ map dict_of es),
    ) in
    rw e
