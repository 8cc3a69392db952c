-- ===== src/Hash/Life.antt =====
-- Making and destroying a hash table.
use libhy_utils_bak.Base.{
  ℕ, zero, suc, ◌+◌, ◌<◌, ◌^◌, ◌≡◌, refl, sym, ap, ap₂, ◌∙◌, ◌++◌, Option, Bytes, true, none, some,
  List, [], ◌∷◌, arith, get_elem?, replicate, drop, drop-length, drop-set, drop-get_elem?,
  length-replicate, get_elem?-replicate, get_elem?-lt, get_elem?-some, map,
}
use mathlib.Core.Option.{some-injective}
use mathlib.Core.Path.{subst}
use libhy_utils_bak.Hash.{
  Hal, Item, HashConfig, Context, item_final, traverse, traverse_item_list, utils_hash_create,
  utils_hash_destroy, final_cb, final_loop, join, turns, Block, value, entry_of, mutex_of,
  mutex_array, head_array, context_block,
}
use libhy_utils_bak.Hash.Chain.{lookup, IsDistinct}
use libhy_utils_bak.Hash.Table.{IsMutex, IsTable, entry, store, store-IsTable}

turns_lem : (n : ℕ) → n < 2 ^ 31 → turns n ≡ n
turns_lem n w = ground arith

no_items : IsDistinct []
unfolding IsDistinct
no_items = ground arith

-- With memory for the context and both arrays, a table of at least one bucket is made: it is well formed
-- and holds nothing.
pub create-IsTable :
    (hal : Hal) (config : HashConfig)
    → 0 < config.bucket_max_len
    → config.bucket_max_len < 2 ^ 31
    → (c : Context hal) × (utils_hash_create hal true true true config ≡ some c)
      × IsTable c
      × ((i k : ℕ) → i < config.bucket_max_len → entry c i k ≡ none)
unfolding utils_hash_create entry lookup
create-IsTable hal config p w = (
  _,
  refl,
  record {
    positive = p;
    small = w;
    heads = length-replicate {A = List Item} (turns config.bucket_max_len) [] ∙ all;
    mutexes = length-replicate (turns config.bucket_max_len) hal.mutex_init ∙ all;
    free = λ i l.
        get_elem?-replicate (turns config.bucket_max_len) hal.mutex_init i (omega (arith, all));
    distinct = distinct;
  },
  λ i k l.
      rw
        (get_elem?-replicate {A = List Item} (turns config.bucket_max_len) [] i
          (omega (arith, all)))
        refl,
)
  where
    all : turns config.bucket_max_len ≡ config.bucket_max_len
    all = turns_lem config.bucket_max_len w

    distinct :
        (i : ℕ) (items : List Item)
        → get_elem? (replicate (turns config.bucket_max_len) []) i ≡ some items
        → IsDistinct items
    distinct i items e =
        subst IsDistinct
          (some-injective [] items (
            sym (
              get_elem?-replicate (turns config.bucket_max_len) [] i (
                omega (
                  arith,
                  get_elem?-lt (replicate (turns config.bucket_max_len) []) i items e,
                  length-replicate {A = List Item} (turns config.bucket_max_len) [],
                )))
            ∙ e))
          no_items

-- the blocks of an item: that of its value, if it has one, and its own
abbrev pub value_blocks : Option Bytes → List Block
value_blocks none = []
value_blocks (some val) = value val ∷ []

abbrev pub blocks_of : List Item → List Block
blocks_of [] = []
blocks_of (item ∷ items) = value_blocks item.val ++ (entry_of item ∷ blocks_of items)

-- the blocks of some buckets, from one on, and their mutexes
unfoldable pub owned : ℕ → List (List Item) → List Block
owned i [] = []
owned i (items ∷ heads) = blocks_of items ++ (mutex_of i ∷ owned (suc i) heads)

traverse-final : (items : List Item) → traverse final_cb items ≡ (map item_final items, [])
unfolding traverse
traverse-final [] = refl
traverse-final (pos ∷ items) = rw (traverse-final items) refl

final-blocks : (items : List Item) → join (map item_final items) ≡ blocks_of items
unfolding item_final
final-blocks [] = refl
final-blocks (item ∷ items) =
    by_value item.val ∙ ap (λ t. value_blocks item.val ++ (entry_of item ∷ t)) (final-blocks items)
  where
    by_value :
        (val : Option Bytes)
        → (elim val as (λ v. List Block) [
          | none ↦ entry_of item ∷ []
          | some bytes ↦ value bytes ∷ entry_of item ∷ []
        ])
            ++ join (map item_final items)
          ≡ value_blocks val ++ (entry_of item ∷ join (map item_final items))
    by_value none = refl
    by_value (some bytes) = refl

module _ {hal : Hal} (m : IsMutex hal) where
  traverse_steps :
      (c : Context hal) (i : ℕ) {mutex locked : hal.Mutex} {items : List Item}
      → get_elem? c.bucket_mutex i ≡ some mutex
      → hal.lock mutex ≡ some locked
      → get_elem? c.bucket_head i ≡ some items
      → hal.unlock locked ≡ hal.mutex_init
      → traverse_item_list hal c final_cb i ≡ some (map item_final items, store c i [])
  unfolding traverse_item_list
  traverse_steps c i {items = items} x y z u =
      rw x (rw y (rw z (rw u (rw (traverse-final items) refl))))

  loop_steps :
      (rest i : ℕ) (c : Context hal) {more : List Block} {c' c'' : Context hal}
      {freed : List (List Block)}
      → traverse_item_list hal c final_cb i ≡ some (freed, c')
      → final_loop hal rest (suc i) c' ≡ some (more, c'')
      → final_loop hal (suc rest) i c ≡ some (join freed ++ (mutex_of i ∷ more), c'')
  unfolding final_loop
  loop_steps rest i c x y = rw x (rw y refl)

  final_loop-owned :
      (rest i : ℕ) {c : Context hal}
      → IsTable c
      → i + rest ≡ c.config.bucket_max_len
      → (c' : Context hal) × (final_loop hal rest i c ≡ some (owned i (drop i c.bucket_head), c'))
  unfolding final_loop owned
  final_loop-owned zero i {c} t h =
      (c, rw (drop-length i c.bucket_head (omega (arith, t.heads))) refl)
  final_loop-owned (suc rest) i {c} t h =
      let (items, e) = get_elem?-some c.bucket_head i (omega (arith, t.heads)) in
      let (c', r) =
        final_loop-owned rest (suc i) {c = store c i []} (store-IsTable [] t (omega arith) no_items)
          (omega arith) in
      (
        c',
        loop_steps rest i c
              (traverse_steps c i (t.free i (omega arith)) m.lock_free e m.unlock_locked) r
            ∙ ap (λ (n : List Block). some (n, c'))
                (ap₂
                    (λ (bs : List Block) (hs : List (List Item)).
                      bs ++ (mutex_of i ∷ owned (suc i) hs))
                    (final-blocks items) (drop-set c.bucket_head i [])
                  ∙ ap (owned i) (sym (drop-get_elem? c.bucket_head i items e))),
      )

  -- Destroying a well formed table ends, and gives back, bucket after bucket, for each item the block of its
  -- value, if it has one, and its own, and the mutex of the bucket; then the two arrays and the context.
  pub destroy_frees :
      {c : Context hal}
      → IsTable c
      → utils_hash_destroy hal (some c)
        ≡ some (owned 0 c.bucket_head ++ (mutex_array ∷ head_array ∷ context_block ∷ []))
  unfolding utils_hash_destroy
  destroy_frees {c} t =
      let (c', r) = final_loop-owned c.config.bucket_max_len 0 t (omega arith) in
      rw (turns_lem c.config.bucket_max_len t.small) (rw r refl)
