-- ===== src/Tests/Cache.antt =====
-- The cache of src/cache.py on concrete calls.
use custom_network_proxy_ser.Base.{
  ℕ, ◌-◌, ◌≤◌, ◌≡◌, refl, arith, true, none, some, List, [], ◌∷◌, ltb, if◌then◌else◌, take_last,
  ℕ_discrete,
}
use custom_network_proxy_ser.Config.{CacheConfig}
use custom_network_proxy_ser.Dict.{lookup, erase, move_to_end, insert}
use custom_network_proxy_ser.Dict.Laws.{Distinct}
use custom_network_proxy_ser.Cache.Lru.{
  Value, LruCache, init, size_of, timestamp_of, stamp, evict, make_way, store, get_present,
}
use custom_network_proxy_ser.Cache.Lru
use custom_network_proxy_ser.Cache.Lru.Items.{touch, put-items}
use custom_network_proxy_ser.Cache.Lru.Invariant.{IsValid}
use custom_network_proxy_ser.Cache.Lru.History.{Call, run, step, latest, run-IsValid, get_sound}
use custom_network_proxy_ser.Cache.Lru.Reads.{get-put, lookup-put_ne}

abbrev cfg : CacheConfig
cfg = record { enabled = true; max_entries = 2; max_object_size = 10; cache_ttl = 60 }

abbrev page : ℕ → Value
page n = record { response = n ∷ []; size = some 1; timestamp = some 100 }

abbrev calls : List (Call ℕ)
calls =
    Call.put 100 1 (page 1)
    ∷ Call.put 101 2 (page 2)
    ∷ Call.get 102 1
    ∷ Call.put 103 3 (page 3)
    ∷ []

run-IsValid_example : IsValid ℕ_discrete (run ℕ_discrete cfg calls)
run-IsValid_example = run-IsValid ℕ_discrete cfg calls

-- Key 1 was read, so that key 2 was thrown out for key 3.
hit : (Lru.get ℕ_discrete cfg 104 1 (run ℕ_discrete cfg calls)).1 ≡ some (page 1)
unfolding run step Lru.get Lru.put store make_way evict get_present lookup erase move_to_end insert
    init ℕ_discrete
hit = refl

thrown_out : (Lru.get ℕ_discrete cfg 104 2 (run ℕ_discrete cfg calls)).1 ≡ none
unfolding run step Lru.get Lru.put store make_way evict get_present lookup erase move_to_end insert
    init ℕ_discrete
thrown_out = refl

get_sound_example :
    (latest ℕ_discrete cfg calls 1 ≡ some (page 1)) × (104 - 100 ≤ (run ℕ_discrete cfg calls).ttl)
get_sound_example = get_sound ℕ_discrete cfg calls 104 1 (page 1) hit

abbrev one_page : LruCache ℕ
one_page = record (init cfg) { items = (1, page 1) ∷ [] }

Distinct-one : Distinct ℕ_discrete ((1, page 1) ∷ [])
unfolding lookup
Distinct-one = (refl, tt)

put-items_example : (Lru.put ℕ_discrete cfg 105 2 (page 2) one_page).items ≡ (
    if ltb 10 1
    then (1, page 1) ∷ []
    else take_last one_page.capacity (touch ℕ_discrete 2 (page 2) ((1, page 1) ∷ [])))
put-items_example = put-items ℕ_discrete cfg refl 105 2 (page 2) one_page Distinct-one

get-put_example :
    (Lru.get ℕ_discrete cfg 110 4
      (Lru.put ℕ_discrete cfg 105 4 (page 4) (run ℕ_discrete cfg calls))).1
    ≡ some (page 4)
unfolding run step Lru.get Lru.put store make_way evict get_present lookup erase move_to_end insert
    init ℕ_discrete
get-put_example =
    get-put ℕ_discrete cfg 105 110 4 (page 4) (run ℕ_discrete cfg calls)
      (run-IsValid ℕ_discrete cfg calls) refl (omega arith) (omega arith) (omega arith)

abbrev one_call : List (Call ℕ)
one_call = Call.put 100 1 (page 1) ∷ []

lookup-put_ne_example :
    lookup ℕ_discrete 1 (Lru.put ℕ_discrete cfg 105 2 (page 2) (run ℕ_discrete cfg one_call)).items
    ≡ lookup ℕ_discrete 1 (run ℕ_discrete cfg one_call).items
unfolding run step Lru.put store make_way evict lookup erase move_to_end insert init ℕ_discrete
lookup-put_ne_example =
    lookup-put_ne ℕ_discrete cfg 105 2 1 (page 2) (run ℕ_discrete cfg one_call)
      (run-IsValid ℕ_discrete cfg one_call) refl (omega arith) (omega arith)
