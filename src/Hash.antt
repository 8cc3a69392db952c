-- ===== src/Hash.antt =====
-- src/utils_hash.c, the hash table. A bucket is the list of its items, first to last.
-- `none` is an access outside an array or through NULL, or a lock that is never had.
-- An `int` is kept as its 32-bit word, and its arithmetic wraps.
pub mod Key
pub mod Chain
pub mod Table
pub mod Operations
pub mod Life
mod Tests
use Prim.Native.Nat.{bit_and}
use libhy_utils_bak.Base.{
  ℕ, zero, suc, ◌+◌, ◌*◌, ◌-◌, ◌/◌, ◌^◌, Bool, true, false, not, ◌&&◌, Option, none, some, List, [],
  ◌∷◌, ◌++◌, ltb, ◌==◌, if◌then◌else◌, ◌>>=◌, u32, sub_mod, Bytes, get_elem?, set, replicate,
}

-- What the code calls of the library it is written for: strings, sizes, its error code and mutexes.
pub record Hal : Type 1 where
  pub strlen : Bytes → Option ℕ
  pub strncpy : Bytes → Bytes → ℕ → Option Bytes
  pub align4_up : ℕ → ℕ
  pub no_err : ℕ
  pub Mutex : Type 0
  pub mutex_init : Mutex
  pub lock : Mutex → Option Mutex
  pub unlock : Mutex → Mutex

-- `item_t`, without its links; `val` is the block it points to, or NULL
pub record Item : Type 0 where
  pub key_hash : ℕ
  pub val : Option Bytes

-- `HashItem_t`: the two arrays of the caller, or NULL
pub record HashItem : Type 0 where
  pub key : Option Bytes
  pub val : Option Bytes

-- `HashConfig_t`
pub record HashConfig : Type 0 where
  pub bucket_max_len : ℕ

-- `hash_context_t`
pub record Context (hal : Hal) : Type 0 where
  pub config : HashConfig
  pub bucket_mutex : List hal.Mutex
  pub bucket_head : List (List Item)

-- `-1`
abbrev pub minus_one : ℕ
minus_one = 2 ^ 32 - 1

-- a `char` as an `int`
abbrev pub sign_extend : ℕ → ℕ
sign_extend c = if ltb c 128 then c else c + (2 ^ 32 - 2 ^ 8)

unfoldable pub generate_loop : Bytes → ℕ → Option ℕ
generate_loop [] hash = none
generate_loop (c ∷ key) hash =
    let rest = generate_loop key (u32 (hash * 31 + sign_extend c)) in
    if c == 0 then some hash else rest

-- `UtilsHashGenerate`
unfoldable pub utils_hash_generate : Option Bytes → Option ℕ
unfolding generate_loop
utils_hash_generate none = some 0
utils_hash_generate (some key) = generate_loop key 0

-- the loop of `_key_to_index` over the last `rest` characters
unfoldable pub index_loop : (rest i : ℕ) → Bytes → ℕ → Option ℕ
index_loop zero i key index = some index
index_loop (suc rest) i key index = do
  c ← get_elem? key i
  index_loop rest (suc i) key (u32 (index * u32 (1103515245 + sign_extend c)))

-- `>> 27` of a negative `int` fills up with ones
abbrev pub shift_27 : ℕ → ℕ
shift_27 index = if ltb index (2 ^ 31) then index / 2 ^ 27 else index / 2 ^ 27 + (2 ^ 32 - 2 ^ 5)

-- how often a loop from 0 below an `int` runs
abbrev pub turns : ℕ → ℕ
turns len = if ltb len (2 ^ 31) then len else 0

-- `_key_to_index`; the length is kept in an `int`
unfoldable pub key_to_index : Hal → ℕ → Option Bytes → Option ℕ
unfolding index_loop
key_to_index hal bucket_max_len none = some minus_one
key_to_index hal bucket_max_len (some key) = do
  len ← hal.strlen key
  c ← get_elem? key 0
  index ← index_loop (turns (u32 len) - 1) 1 key (sign_extend c)
  some (bit_and (shift_27 index) (sub_mod (2 ^ 32) bucket_max_len 1))

-- `Hal_calloc` of `n` bytes, whether or not it has the memory
abbrev pub calloc : Bool → ℕ → Option Bytes
calloc ok n = if ok then some (replicate n 0) else none

-- `_item_init`, and the two allocations' results; the inner `none` is the NULL it returns. A missing
-- `val` is not noticed, since the test is on `item`.
unfoldable pub item_init : Hal → (item_ok val_ok : Bool) → HashItem → Option (Option Item)
unfolding utils_hash_generate
item_init hal item_ok val_ok hash_item = if not item_ok then some none else do
  src ← hash_item.val
  len ← hal.strlen src
  dst ← calloc val_ok (hal.align4_up (u32 len))
  val ← hal.strncpy dst src (u32 len)
  key_hash ← utils_hash_generate hash_item.key
  some (some (record { key_hash = key_hash; val = some val }))

-- What is given back: the block of a value, an item, the mutex of a bucket, the two arrays and the
-- context.
pub data Block : Type 0 where
  value : Bytes → Block
  entry_of : Item → Block
  mutex_of : ℕ → Block
  mutex_array head_array context_block : Block

-- `_item_final`: the blocks it frees, in order
unfoldable pub item_final : Item → List Block
item_final item = elim item.val [
  | none ↦ entry_of item ∷ []
  | some val ↦ value val ∷ entry_of item ∷ []
]

-- `handle_item_cb_t`, at an item and what the caller passes: the item that stays in the list, or none
-- when it is taken out, and the caller's arrays after it.
abbrev pub Callback : Type 0
Callback = Item → HashItem → Option (Option Item × HashItem)

-- `_replace_item_val`: the new block is freed before it is written to, and NULL, which is then
-- written to, is an array of no bytes
unfoldable pub replace_item_val : Hal → Bool → Callback
replace_item_val hal val_ok pos item = do
  src ← item.val
  len ← hal.strlen src
  elim (calloc val_ok (hal.align4_up (u32 len))) [
    | none ↦ some (some (record pos { val = none }), item)
    | some val ↦
        (hal.strncpy [] src (u32 len) >>= λ out. some (some (record pos { val = none }), item))
  ]

-- `_del_item_from_list`
unfoldable pub del_item_from_list : Callback
del_item_from_list pos item = some (none, item)

-- `_get_item_val`
unfoldable pub get_item_val : Hal → Callback
get_item_val hal pos item = do
  src ← pos.val
  dst ← item.val
  len ← hal.strlen src
  val ← hal.strncpy dst src len
  some (some pos, record item { val = some val })

-- the item that a callback leaves, before the rest
abbrev pub keep : Option Item → List Item → List Item
keep none items = items
keep (some item) items = item ∷ items

-- the loop of `_find_item_from_list`
unfoldable pub find_in : Callback → HashItem → ℕ → List Item → Option (Bool × List Item × HashItem)
find_in cb hash_item key_hash [] = some (false, [], hash_item)
find_in cb hash_item key_hash (pos ∷ items) =
    let rest = find_in cb hash_item key_hash items in
    if pos.key_hash == key_hash
    then (cb pos hash_item >>= λ r. some (true, keep r.0 items, r.1))
    else (rest >>= λ r. some (r.0, pos ∷ r.1, r.2))

-- `_find_item_from_list`
unfoldable pub find_item_from_list :
    (hal : Hal) → Context hal → HashItem → Callback → ℕ → Option (Bool × Context hal × HashItem)
unfolding utils_hash_generate find_in
find_item_from_list hal context hash_item cb index = do
  key_hash ← utils_hash_generate hash_item.key
  mutex ← get_elem? context.bucket_mutex index
  locked ← hal.lock mutex
  items ← get_elem? context.bucket_head index
  (find_flag, items', hash_item') ← find_in cb hash_item key_hash items
  some (
    find_flag,
    record context {
      bucket_mutex = set context.bucket_mutex index (hal.unlock locked);
      bucket_head = set context.bucket_head index items';
    },
    hash_item',
  )

-- `_add_item_to_list`, with `hlist_add_head`, which faults at an item that is NULL
unfoldable pub add_item_to_list :
    (hal : Hal) → (item_ok val_ok : Bool) → Context hal → HashItem → Option (Context hal)
unfolding key_to_index item_init
add_item_to_list hal item_ok val_ok context hash_item = do
  index ← key_to_index hal context.config.bucket_max_len hash_item.key
  block ← item_init hal item_ok val_ok hash_item
  mutex ← get_elem? context.bucket_mutex index
  locked ← hal.lock mutex
  items ← get_elem? context.bucket_head index
  item ← block
  some (record context {
    bucket_mutex = set context.bucket_mutex index (hal.unlock locked);
    bucket_head = set context.bucket_head index (item ∷ items);
  })

-- an `int` that says whether the item has been found
abbrev pub flag : Bool → ℕ
flag find_flag = if find_flag then 1 else 0

-- `UtilsHashItemAdd`. It allocates for the value it replaces, or for an item and its value.
unfoldable pub utils_hash_item_add :
    (hal : Hal)
    → (replace_ok item_ok val_ok : Bool) → Option (Context hal)
    → Option HashItem
    → Option (ℕ × Option (Context hal))
unfolding key_to_index find_item_from_list replace_item_val add_item_to_list
utils_hash_item_add hal replace_ok item_ok val_ok (some context) (some hash_item) = do
  index ← key_to_index hal context.config.bucket_max_len hash_item.key
  (find_flag, context', hash_item') ←
      find_item_from_list hal context hash_item (replace_item_val hal replace_ok) index
  context'' ←
      if find_flag then some context' else add_item_to_list hal item_ok val_ok context' hash_item'
  some (hal.no_err, some context'')
utils_hash_item_add hal replace_ok item_ok val_ok handle hash_item = some (minus_one, handle)

-- `UtilsHashItemDel`
unfoldable pub utils_hash_item_del :
    (hal : Hal) → Option (Context hal) → HashItem → Option (ℕ × Option (Context hal))
unfolding key_to_index find_item_from_list del_item_from_list
utils_hash_item_del hal none hash_item = some (minus_one, none)
utils_hash_item_del hal (some context) hash_item = do
  index ← key_to_index hal context.config.bucket_max_len hash_item.key
  (find_flag, context', hash_item') ←
      find_item_from_list hal context hash_item del_item_from_list index
  some (flag find_flag, some context')

-- `UtilsHashItemGet`, with the caller's arrays after it
unfoldable pub utils_hash_item_get :
    (hal : Hal) → Option (Context hal) → HashItem → Option (ℕ × Option (Context hal) × HashItem)
unfolding key_to_index find_item_from_list get_item_val
utils_hash_item_get hal none hash_item = some (minus_one, none, hash_item)
utils_hash_item_get hal (some context) hash_item = do
  index ← key_to_index hal context.config.bucket_max_len hash_item.key
  (find_flag, context', hash_item') ←
      find_item_from_list hal context hash_item (get_item_val hal) index
  some (flag find_flag, some context', hash_item')

-- `UtilsHashGetBucket`
unfoldable pub utils_hash_get_bucket : (hal : Hal) → Option (Context hal) → ℕ
utils_hash_get_bucket hal none = minus_one
utils_hash_get_bucket hal (some context) = context.config.bucket_max_len

-- `_traverse_item_list` over one bucket: what the callback gives at each item, and the items it leaves
unfoldable pub traverse {ℓ} :
    {A : Type ℓ} → (Item → A × Option Item) → List Item → List A × List Item
traverse cb [] = ([], [])
traverse cb (pos ∷ items) =
    let rest = traverse cb items in ((cb pos).0 ∷ rest.0, keep (cb pos).1 rest.1)

unfoldable pub traverse_item_list {ℓ} :
    {A : Type ℓ} (hal : Hal)
    → Context hal
    → (Item → A × Option Item)
    → ℕ
    → Option (List A × Context hal)
unfolding traverse
traverse_item_list hal context cb index = do
  mutex ← get_elem? context.bucket_mutex index
  locked ← hal.lock mutex
  items ← get_elem? context.bucket_head index
  let r = traverse cb items
  some (
    r.0,
    record context {
      bucket_mutex = set context.bucket_mutex index (hal.unlock locked);
      bucket_head = set context.bucket_head index r.1;
    },
  )

-- `_context_init`, and its three allocations' results
unfoldable pub context_init :
    (hal : Hal) → (context_ok head_ok mutex_ok : Bool) → HashConfig → Option (Context hal)
context_init hal context_ok head_ok mutex_ok config =
    if context_ok && (head_ok && mutex_ok)
    then some (record {
      config = config;
      bucket_mutex = replicate (turns config.bucket_max_len) hal.mutex_init;
      bucket_head = replicate (turns config.bucket_max_len) [];
    })
    else none

-- `UtilsHashCreate`
unfoldable pub utils_hash_create :
    (hal : Hal) → (context_ok head_ok mutex_ok : Bool) → HashConfig → Option (Context hal)
unfolding context_init
utils_hash_create hal context_ok head_ok mutex_ok config =
    context_init hal context_ok head_ok mutex_ok config

-- the lists in a row
abbrev pub join : List (List Block) → List Block
join [] = []
join (blocks ∷ rest) = blocks ++ join rest

-- `_del_item_from_list` at an item of a bucket that is emptied: the blocks it frees
abbrev pub final_cb : Item → List Block × Option Item
final_cb pos = (item_final pos, none)

-- the loop of `_context_final`: the blocks freed, where the mutex of each bucket is destroyed
unfoldable pub final_loop :
    (hal : Hal) → (rest i : ℕ) → Context hal → Option (List Block × Context hal)
unfolding item_final traverse_item_list
final_loop hal zero i context = some ([], context)
final_loop hal (suc rest) i context = do
  (freed, context') ← traverse_item_list hal context final_cb i
  (more, context'') ← final_loop hal rest (suc i) context'
  some (join freed ++ (mutex_of i ∷ more), context'')

-- `_context_final`, which frees the two arrays and the context last
unfoldable pub context_final : (hal : Hal) → Context hal → Option (List Block)
unfolding final_loop
context_final hal context = do
  (freed, context') ← final_loop hal (turns context.config.bucket_max_len) 0 context
  some (freed ++ (mutex_array ∷ head_array ∷ context_block ∷ []))

-- `UtilsHashDestroy`: the blocks it frees, in order
unfoldable pub utils_hash_destroy : (hal : Hal) → Option (Context hal) → Option (List Block)
unfolding context_final
utils_hash_destroy hal none = some []
utils_hash_destroy hal (some context) = context_final hal context

-- `_item_dump`: the hash and the value that it prints
abbrev pub item_dump : Item → (ℕ × Option Bytes) × Option Item
item_dump pos = ((pos.key_hash, pos.val), some pos)

unfoldable pub dump_loop :
    (hal : Hal)
    → (rest i : ℕ) → Context hal
    → Option (List (ℕ × List (ℕ × Option Bytes)) × Context hal)
unfolding traverse_item_list
dump_loop hal zero i context = some ([], context)
dump_loop hal (suc rest) i context = do
  (lines, context') ← traverse_item_list hal context item_dump i
  (more, context'') ← dump_loop hal rest (suc i) context'
  some ((i, lines) ∷ more, context'')

-- `UtilsHashDump`: each bucket's number, and a line for each of its items
unfoldable pub utils_hash_dump :
    (hal : Hal)
    → Option (Context hal)
    → Option (List (ℕ × List (ℕ × Option Bytes)) × Option (Context hal))
unfolding dump_loop
utils_hash_dump hal none = some ([], none)
utils_hash_dump hal (some context) = do
  (lines, context') ← dump_loop hal (turns context.config.bucket_max_len) 0 context
  some (lines, some context')
