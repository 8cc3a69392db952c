-- ===== src/Hash/Tests.antt =====
-- Runs of the hash table on a few keys.
use mathlib.Core.Option.{some-injective, none-ne-some}
use mathlib.Core.Path.{subst}
use libhy_utils_bak.Base.{
  ℕ, ◌/◌, ◌++◌, leb, length, ◌+◌, ◌%◌, ◌^◌, ◌<◌, ◌≡◌, refl, Bool, true, false, none, some, [], ◌∷◌,
  arith, Bytes, if◌then◌else◌, overwrite, take, zero, suc, List, get_elem?,
}
use libhy_utils_bak.StrCopy.{strlen}
use libhy_utils_bak.Hash.{
  Hal, Item, HashItem, HashConfig, Context, utils_hash_generate, key_to_index, index_loop,
  mutex_array, head_array, context_block, utils_hash_destroy, utils_hash_item_add,
  utils_hash_item_get, utils_hash_item_del,
}
use libhy_utils_bak.Hash.Key.{poly, utils_hash_generate-poly, product, key_to_index-product}
use libhy_utils_bak.Hash.Chain.{lookup, IsDistinct}
use libhy_utils_bak.Hash.Table.{IsMutex, IsTable, Located, entry, Updated}
use libhy_utils_bak.Hash.Operations.{add_inserts, del_removes, get-add}
use libhy_utils_bak.Hash.Life.{owned, destroy_frees}

abbrev hal : Hal
hal = record {
  strlen = strlen;
  strncpy = λ dst src n. if leb n (length dst) then some (overwrite dst 0 (take n src)) else none;
  align4_up = λ n. n + 4;
  no_err = 0;
  Mutex = Bool;
  mutex_init = false;
  lock = λ m. if m then none else some true;
  unlock = λ m. false;
}

hal-IsMutex : IsMutex hal
hal-IsMutex = record { locked = true; lock_free = refl; unlock_locked = refl }

abbrev config : HashConfig
config = record { bucket_max_len = 2 }

abbrev key : Bytes
key = 97 ∷ 98 ∷ 0 ∷ []

abbrev item : HashItem
item = record { key = some key; val = some (120 ∷ 0 ∷ []) }

abbrev stored : Item
stored = record { key_hash = 3105; val = some (120 ∷ 0 ∷ 0 ∷ 0 ∷ 0 ∷ []) }

abbrev one_item : Context hal
one_item = record {
  config = config;
  bucket_mutex = false ∷ false ∷ [];
  bucket_head = [] ∷ (stored ∷ []) ∷ [];
}

abbrev no_item : Context hal
no_item = record { config = config; bucket_mutex = false ∷ false ∷ []; bucket_head = [] ∷ [] ∷ [] }

index_run : key_to_index hal 2 (some key) ≡ some 1
unfolding key_to_index index_loop strlen
index_run = refl

hash_run : utils_hash_generate (some key) ≡ some 3105
unfolding utils_hash_generate
hash_run = refl

key_to_index-product_example :
    (i : ℕ) × (key_to_index hal (2 ^ 4) (some key) ≡ some i)
    × (i ≡ product (98 ∷ []) 97 % 2 ^ 32 / 2 ^ 27 % 2 ^ 4)
    × (i < 2 ^ 4)
unfolding strlen
key_to_index-product_example =
    key_to_index-product hal 97 (98 ∷ []) (0 ∷ []) 2 4 refl refl (omega arith) (omega arith)
      (omega arith)

utils_hash_generate-poly_example :
    utils_hash_generate (some (97 ∷ 98 ∷ 0 ∷ 7 ∷ [])) ≡ some (poly (97 ∷ 98 ∷ []) 0 % 2 ^ 32)
utils_hash_generate-poly_example = utils_hash_generate-poly (97 ∷ 98 ∷ []) (7 ∷ []) refl

two_free : (i : ℕ) → i < 2 → get_elem? (false ∷ false ∷ []) i ≡ some false
two_free zero l = refl
two_free (suc zero) l = refl
two_free (suc (suc i)) l = absurd (omega arith)

no_item-IsDistinct :
    (i : ℕ) (items : List Item) → get_elem? no_item.bucket_head i ≡ some items → IsDistinct items
unfolding IsDistinct
no_item-IsDistinct zero items e = subst IsDistinct (some-injective [] items e) (ground arith)
no_item-IsDistinct (suc zero) items e = subst IsDistinct (some-injective [] items e) (ground arith)
no_item-IsDistinct (suc (suc i)) items e = absurd (none-ne-some items e)

no_item-IsTable : IsTable no_item
no_item-IsTable = record {
  positive = omega arith;
  small = omega arith;
  heads = refl;
  mutexes = refl;
  free = two_free;
  distinct = no_item-IsDistinct;
}

one_item-IsDistinct :
    (i : ℕ) (items : List Item) → get_elem? one_item.bucket_head i ≡ some items → IsDistinct items
unfolding IsDistinct lookup
one_item-IsDistinct zero items e = subst IsDistinct (some-injective [] items e) (ground arith)
one_item-IsDistinct (suc zero) items e =
    subst IsDistinct (some-injective (stored ∷ []) items e) (refl, ground arith)
one_item-IsDistinct (suc (suc i)) items e = absurd (none-ne-some items e)

one_item-IsTable : IsTable one_item
one_item-IsTable = record {
  positive = omega arith;
  small = omega arith;
  heads = refl;
  mutexes = refl;
  free = two_free;
  distinct = one_item-IsDistinct;
}

no_item-Located : Located no_item (some key) 1 3105
no_item-Located = record { index = index_run; bound = omega arith; hash = hash_run }

one_item-Located : Located one_item (some key) 1 3105
one_item-Located = record { index = index_run; bound = omega arith; hash = hash_run }

one_item-entry : entry one_item 1 3105 ≡ some stored
unfolding entry lookup
one_item-entry = refl

no_item-entry : entry no_item 1 3105 ≡ none
unfolding entry lookup
no_item-entry = refl

one_char : strlen (120 ∷ 0 ∷ []) ≡ some 1
unfolding strlen
one_char = refl

add_inserts_example :
    (c' : Context hal) × (utils_hash_item_add hal false true true (some no_item) (some item)
      ≡ some (0, some c'))
    × Updated no_item c' 1 3105 (some stored)
add_inserts_example =
    add_inserts hal-IsMutex no_item-IsTable item no_item-Located false no_item-entry refl one_char
      refl

del_removes_example :
    (c' : Context hal) × (utils_hash_item_del hal (some one_item) item
      ≡ some (elim (entry one_item 1 3105) [ none ↦ 0 | some pos ↦ 1 ], some c'))
    × Updated one_item c' 1 3105 none
del_removes_example = del_removes hal-IsMutex one_item-IsTable item one_item-Located

get-add_example :
    (c' : Context hal) × (utils_hash_item_add hal true true true (some no_item) (some item)
      ≡ some (0, some c'))
    × (utils_hash_item_get hal (some c') (record { key = some key; val = some (1 ∷ 2 ∷ 3 ∷ []) })
        ≡ some (1, some c', record { key = some key; val = some (120 ∷ 2 ∷ 3 ∷ []) }))
unfolding strlen
get-add_example =
    get-add hal-IsMutex no_item-IsTable key no_item-Located true no_item-entry one_char refl refl
      refl

destroy_frees_example :
    utils_hash_destroy hal (some one_item)
    ≡ some (owned 0 one_item.bucket_head ++ (mutex_array ∷ head_array ∷ context_block ∷ []))
destroy_frees_example = destroy_frees hal-IsMutex one_item-IsTable
