-- ===== src/Hash/Table.antt =====
-- The whole table as a map from bucket and key hash to items: adding, finding and deleting.
use mathlib.Core.Path.{subst}
use mathlib.Core.Option.{some-injective}
use libhy_utils_bak.Base.{
  ℕ, ◌<◌, ◌^◌, ◌≡◌, ◌≢◌, ◌⊎◌, refl, sym, ap, ap₂, ◌∙◌, Bool, true, Option, none, some, List, ◌∷◌,
  ◌>>=◌, u32, Bytes, arith, inl, inr, eq_cases, get_elem?, set, length, length-set, replicate,
  get_elem?-set, get_elem?-set_other, set-get_elem?,
}
use libhy_utils_bak.Hash.{
  Hal, Item, HashItem, Context, Callback, utils_hash_generate, key_to_index, find_in, item_init,
  find_item_from_list, add_item_to_list,
}
use libhy_utils_bak.Hash.Chain.{lookup, IsDistinct}

-- A mutex that is free can be locked, and is free again when it is unlocked.
pub record IsMutex (hal : Hal) : Type 0 where
  pub locked : hal.Mutex
  pub lock_free : hal.lock hal.mutex_init ≡ some locked
  pub unlock_locked : hal.unlock locked ≡ hal.mutex_init

pub record IsTable {hal : Hal} (c : Context hal) : Type 0 where
  pub positive : 0 < c.config.bucket_max_len
  pub small : c.config.bucket_max_len < 2 ^ 31
  pub heads : length c.bucket_head ≡ c.config.bucket_max_len
  pub mutexes : length c.bucket_mutex ≡ c.config.bucket_max_len
  pub free :
      (i : ℕ) → i < c.config.bucket_max_len → get_elem? c.bucket_mutex i ≡ some hal.mutex_init
  pub distinct :
      (i : ℕ) (items : List Item) → get_elem? c.bucket_head i ≡ some items → IsDistinct items

-- the bucket and the hash of a key
pub record Located {hal : Hal} (c : Context hal) (key : Option Bytes) (i k : ℕ) : Type 0 where
  pub index : key_to_index hal c.config.bucket_max_len key ≡ some i
  pub bound : i < c.config.bucket_max_len
  pub hash : utils_hash_generate key ≡ some k

pub item_steps :
    (hal : Hal) (hash_item : HashItem) {src val : Bytes} {len k : ℕ}
    → hash_item.val ≡ some src
    → hal.strlen src ≡ some len
    → hal.strncpy (replicate (hal.align4_up (u32 len)) 0) src (u32 len) ≡ some val
    → utils_hash_generate hash_item.key ≡ some k
    → item_init hal true true hash_item ≡ some (some (record { key_hash = k; val = some val }))
unfolding item_init
item_steps hal hash_item x y z u = rw x (rw y (rw z (rw u refl)))

module _ {hal : Hal} where
  -- the item that a table holds
  unfoldable pub entry : Context hal → (i k : ℕ) → Option Item
  entry c i k = get_elem? c.bucket_head i >>= lookup k

  -- a table that differs from another in the item at one bucket and hash
  pub record Updated (c c' : Context hal) (i k : ℕ) (item : Option Item) : Type 0 where
    pub valid : IsTable c'
    pub same_config : c'.config ≡ c.config
    pub here : entry c' i k ≡ item
    pub elsewhere : (j l : ℕ) → (i ≢ j) ⊎ (k ≢ l) → entry c' j l ≡ entry c j l

  -- a table with another list in a bucket
  abbrev pub store : Context hal → ℕ → List Item → Context hal
  store c i items = record c {
    bucket_mutex = set c.bucket_mutex i hal.mutex_init;
    bucket_head = set c.bucket_head i items;
  }

  pub store_self :
      {c : Context hal} {i : ℕ} {items : List Item}
      → IsTable c
      → i < c.config.bucket_max_len
      → get_elem? c.bucket_head i ≡ some items
      → store c i items ≡ c
  store_self {c} {i} {items} t b e =
      ap₂
        (λ (ms : List hal.Mutex) (hs : List (List Item)). record c {
          bucket_mutex = ms;
          bucket_head = hs;
        })
        (set-get_elem? c.bucket_mutex i hal.mutex_init (t.free i b))
        (set-get_elem? c.bucket_head i items e)

  pub store-IsTable :
      {c : Context hal} {i : ℕ} (items : List Item)
      → IsTable c
      → i < c.config.bucket_max_len
      → IsDistinct items
      → IsTable (store c i items)
  store-IsTable {c} {i} items t b d = record {
    positive = t.positive;
    small = t.small;
    heads = length-set c.bucket_head i items ∙ t.heads;
    mutexes = length-set c.bucket_mutex i hal.mutex_init ∙ t.mutexes;
    free = λ j l.
        ap (λ (ms : List hal.Mutex). get_elem? ms j)
          (set-get_elem? c.bucket_mutex i hal.mutex_init (t.free i b))
        ∙ t.free j l;
    distinct = distinct;
  }
    where
      distinct :
          (j : ℕ) (others : List Item)
          → get_elem? (set c.bucket_head i items) j ≡ some others
          → IsDistinct others
      distinct j others e = elim (eq_cases i j) [
        | inl p ↦
            subst IsDistinct
              (some-injective items others (
                sym (get_elem?-set c.bucket_head i items (omega (arith, t.heads)))
                ∙ (ap (get_elem? (set c.bucket_head i items)) p ∙ e)))
              d
        | inr ne ↦ t.distinct j others (sym (get_elem?-set_other c.bucket_head i j items ne) ∙ e)
      ]

  pub store-Updated :
      {c : Context hal} {i k : ℕ} {items : List Item} (items' : List Item) {item : Option Item}
      → IsTable c
      → i < c.config.bucket_max_len
      → get_elem? c.bucket_head i ≡ some items
      → IsDistinct items'
      → lookup k items' ≡ item
      → ((l : ℕ) → k ≢ l → lookup l items' ≡ lookup l items)
      → Updated c (store c i items') i k item
  unfolding entry
  store-Updated {c} {i} {k} {items} items' t b e d h o = record {
    valid = store-IsTable items' t b d;
    same_config = refl;
    here = rw (get_elem?-set c.bucket_head i items' (omega (arith, t.heads))) h;
    elsewhere = elsewhere;
  }
    where
      at_home : (l : ℕ) → k ≢ l → entry (store c i items') i l ≡ entry c i l
      at_home l ne =
          rw (get_elem?-set c.bucket_head i items' (omega (arith, t.heads))) (rw e (o l ne))

      elsewhere : (j l : ℕ) → (i ≢ j) ⊎ (k ≢ l) → entry (store c i items') j l ≡ entry c j l
      elsewhere j l ne = elim (eq_cases i j) [
        | inr apart ↦ rw (get_elem?-set_other c.bucket_head i j items' apart) refl
        | inl p ↦ elim ne [
          | inl apart ↦ absurd (apart p)
          | inr other ↦
              ap (λ (x : ℕ). entry (store c i items') x l) (sym p)
              ∙ (at_home l other ∙ ap (λ (x : ℕ). entry c x l) p)
        ]
      ]

  pub find_steps :
      (c : Context hal) (i : ℕ) {k : ℕ} (hash_item : HashItem) (cb : Callback)
      {mutex locked : hal.Mutex} {items items' : List Item} {f : Bool} {out : HashItem}
      → utils_hash_generate hash_item.key ≡ some k
      → get_elem? c.bucket_mutex i ≡ some mutex
      → hal.lock mutex ≡ some locked
      → get_elem? c.bucket_head i ≡ some items
      → find_in cb hash_item k items ≡ some (f, items', out)
      → hal.unlock locked ≡ hal.mutex_init
      → find_item_from_list hal c hash_item cb i ≡ some (f, store c i items', out)
  unfolding find_item_from_list
  find_steps c i hash_item cb x y z u v w = rw x (rw y (rw z (rw u (rw v (rw w refl)))))

  pub find_faults :
      (c : Context hal) (i : ℕ) {k : ℕ} (hash_item : HashItem) (cb : Callback)
      {mutex locked : hal.Mutex} {items : List Item}
      → utils_hash_generate hash_item.key ≡ some k
      → get_elem? c.bucket_mutex i ≡ some mutex
      → hal.lock mutex ≡ some locked
      → get_elem? c.bucket_head i ≡ some items
      → find_in cb hash_item k items ≡ none
      → find_item_from_list hal c hash_item cb i ≡ none
  unfolding find_item_from_list
  find_faults c i hash_item cb x y z u v = rw x (rw y (rw z (rw u (rw v refl))))

  pub add_steps :
      (c : Context hal) (hash_item : HashItem) {i : ℕ} {item : Item} {items : List Item}
      {mutex locked : hal.Mutex}
      → key_to_index hal c.config.bucket_max_len hash_item.key ≡ some i
      → item_init hal true true hash_item ≡ some (some item)
      → get_elem? c.bucket_mutex i ≡ some mutex
      → hal.lock mutex ≡ some locked
      → get_elem? c.bucket_head i ≡ some items
      → hal.unlock locked ≡ hal.mutex_init
      → add_item_to_list hal true true c hash_item ≡ some (store c i (item ∷ items))
  unfolding add_item_to_list
  add_steps c hash_item x y z u v w = rw x (rw y (rw z (rw u (rw v (rw w refl)))))
