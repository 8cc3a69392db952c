-- ===== src/Hash/Operations.antt =====
-- Adding, deleting and getting in `src/utils_hash.c`, on a table that is well formed.
use libhy_utils_bak.Base.{
  ℕ, ◌≡◌, ◌≢◌, refl, sym, ap, ◌∙◌, Bool, true, false, Option, none, some, List, [], ◌∷◌, ◌>>=◌, u32,
  Bytes, arith, inl, inr, Option-cases, get_elem?, replicate, get_elem?-some,
}
use libhy_utils_bak.Hash.{
  Hal, Item, HashItem, HashConfig, Context, Callback, key_to_index, find_in, flag,
  find_item_from_list, replace_item_val, del_item_from_list, get_item_val, add_item_to_list,
  utils_hash_item_add, utils_hash_item_del, utils_hash_item_get,
}
use libhy_utils_bak.Hash.Chain.{
  lookup, IsDistinct, without, find_in-none, find_in-faults, find_in-keeps, find_in-drops,
  lookup-without, lookup-without_other, without-IsDistinct,
}
use libhy_utils_bak.Hash.Table.{
  IsMutex, IsTable, Located, entry, Updated, store, store_self, store-Updated, find_steps,
  find_faults, add_steps, item_steps,
}

lookup-here : (item : Item) (items : List Item) → lookup item.key_hash (item ∷ items) ≡ some item
unfolding lookup
lookup-here item items = ground arith

lookup-later :
    (item : Item) (items : List Item) (other : ℕ)
    → item.key_hash ≢ other
    → lookup other (item ∷ items) ≡ lookup other items
unfolding lookup
lookup-later item items other ne = ground (arith, ne)

get_steps :
    (hal : Hal) (pos : Item) (hash_item : HashItem) {val dst out : Bytes} {len : ℕ}
    → pos.val ≡ some val
    → hash_item.val ≡ some dst
    → hal.strlen val ≡ some len
    → hal.strncpy dst val len ≡ some out
    → get_item_val hal pos hash_item ≡ some (some pos, record hash_item { val = some out })
unfolding get_item_val
get_steps hal pos hash_item x y z u = rw x (rw y (rw z (rw u refl)))

module _ {hal : Hal} (m : IsMutex hal) {c : Context hal} (t : IsTable c) (hash_item : HashItem)
    {i k : ℕ} (l : Located c hash_item.key i k) where
  bucket : (items : List Item) × (get_elem? c.bucket_head i ≡ some items)
  bucket = get_elem?-some c.bucket_head i (omega (arith, t.heads, l.bound))

  in_bucket : {item : Option Item} → entry c i k ≡ item → lookup k bucket.0 ≡ item
  unfolding entry
  in_bucket h = ap (λ (o : Option (List Item)). o >>= lookup k) (sym bucket.1) ∙ h

  find_lem :
      (cb : Callback) {items' : List Item} {f : Bool} {out : HashItem}
      → find_in cb hash_item k bucket.0 ≡ some (f, items', out)
      → find_item_from_list hal c hash_item cb i ≡ some (f, store c i items', out)
  find_lem cb e =
      find_steps c i hash_item cb l.hash (t.free i l.bound) m.lock_free bucket.1 e m.unlock_locked

  -- a search that leaves its bucket as it is leaves the table as it is
  find_same :
      (cb : Callback) {f : Bool} {out : HashItem}
      → find_in cb hash_item k bucket.0 ≡ some (f, bucket.0, out)
      → find_item_from_list hal c hash_item cb i ≡ some (f, c, out)
  find_same cb {f} {out} e =
      find_lem cb e ∙ ap (λ (d : Context hal). some (f, d, out)) (store_self t l.bound bucket.1)

  add_chain :
      (replace_ok item_ok val_ok : Bool) {c'' : Context hal}
      → find_item_from_list hal c hash_item (replace_item_val hal replace_ok) i
        ≡ some (false, c, hash_item)
      → add_item_to_list hal item_ok val_ok c hash_item ≡ some c''
      → utils_hash_item_add hal replace_ok item_ok val_ok (some c) (some hash_item)
        ≡ some (hal.no_err, some c'')
  unfolding utils_hash_item_add
  add_chain replace_ok item_ok val_ok x y = rw (l.index) (rw x (rw y refl))

  add_fault :
      (replace_ok item_ok val_ok : Bool)
      → find_item_from_list hal c hash_item (replace_item_val hal replace_ok) i ≡ none
      → utils_hash_item_add hal replace_ok item_ok val_ok (some c) (some hash_item) ≡ none
  unfolding utils_hash_item_add
  add_fault replace_ok item_ok val_ok x = rw (l.index) (rw x refl)

  replace_fault :
      (pos : Item) {src : Bytes} {len : ℕ}
      → hash_item.val ≡ some src
      → hal.strlen src ≡ some len
      → hal.strncpy [] src (u32 len) ≡ none
      → replace_item_val hal true pos hash_item ≡ none
  unfolding replace_item_val
  replace_fault pos a b d = rw a (rw b (rw d refl))

  del_chain :
      {f : Bool} {c' : Context hal} {out : HashItem}
      → find_item_from_list hal c hash_item del_item_from_list i ≡ some (f, c', out)
      → utils_hash_item_del hal (some c) hash_item ≡ some (flag f, some c')
  unfolding utils_hash_item_del
  del_chain x = rw (l.index) (rw x refl)

  del_drops : (pos : Item) → del_item_from_list pos hash_item ≡ some (none, hash_item)
  unfolding del_item_from_list
  del_drops pos = refl

  get_chain :
      {f : Bool} {c' : Context hal} {out : HashItem}
      → find_item_from_list hal c hash_item (get_item_val hal) i ≡ some (f, c', out)
      → utils_hash_item_get hal (some c) hash_item ≡ some (flag f, some c', out)
  unfolding utils_hash_item_get
  get_chain x = rw (l.index) (rw x refl)

  -- Adding a key whose hash its bucket does not hold puts the item with a copy of the value there,
  -- changes no other item, keeps the table well formed and leaves every mutex free, when the two
  -- allocations give memory and the string functions give the length and the copy.
  pub add_inserts :
      (replace_ok : Bool) {src val : Bytes} {len : ℕ}
      → entry c i k ≡ none
      → hash_item.val ≡ some src
      → hal.strlen src ≡ some len
      → hal.strncpy (replicate (hal.align4_up (u32 len)) 0) src (u32 len) ≡ some val
      → (c' : Context hal) × (utils_hash_item_add hal replace_ok true true (some c) (some hash_item)
          ≡ some (hal.no_err, some c'))
        × Updated c c' i k (some (record { key_hash = k; val = some val }))
  unfolding IsDistinct
  add_inserts replace_ok {src} {val} {len} absent a b d =
      let fresh : Item = record { key_hash = k; val = some val } in
      (
        store c i (fresh ∷ bucket.0),
        add_chain replace_ok true true
            (find_same (replace_item_val hal replace_ok) (
              find_in-none (replace_item_val hal replace_ok) hash_item k bucket.0
                (in_bucket absent)))
            (add_steps c hash_item l.index (item_steps hal hash_item a b d l.hash)
              (t.free i l.bound) m.lock_free bucket.1 m.unlock_locked),
        store-Updated (fresh ∷ bucket.0) t l.bound bucket.1
            (in_bucket absent, t.distinct i bucket.0 bucket.1) (lookup-here fresh bucket.0)
            (λ other ne. lookup-later fresh bucket.0 other ne),
      )

  -- Adding a key whose hash is there already, with an allocation that gives memory, copies
  -- the value to NULL, and faults when that copy does.
  pub add_present_faults :
      (item_ok val_ok : Bool) {pos : Item} {src : Bytes} {len : ℕ}
      → entry c i k ≡ some pos
      → hash_item.val ≡ some src
      → hal.strlen src ≡ some len
      → hal.strncpy [] src (u32 len) ≡ none
      → utils_hash_item_add hal true item_ok val_ok (some c) (some hash_item) ≡ none
  add_present_faults item_ok val_ok {pos} present a b d = add_fault true item_ok val_ok (
      find_faults c i hash_item (replace_item_val hal true) l.hash (t.free i l.bound) m.lock_free
        bucket.1
        (find_in-faults (replace_item_val hal true) hash_item k bucket.0 (in_bucket present)
          (replace_fault pos a b d)))

  -- Deleting a key returns whether its hash was there; afterwards it is not, no other item is changed,
  -- the table is well formed and every mutex is free.
  pub del_removes :
      (c' : Context hal) × (utils_hash_item_del hal (some c) hash_item
        ≡ some (elim (entry c i k) [ none ↦ 0 | some pos ↦ 1 ], some c'))
      × Updated c c' i k none
  del_removes = elim (Option-cases (entry c i k)) [
    | inl absent ↦ (
      c,
      rw absent (
          del_chain (
            find_same del_item_from_list
              (find_in-none del_item_from_list hash_item k bucket.0 (in_bucket absent)))),
      record { valid = t; same_config = refl; here = absent; elsewhere = λ j x ne. refl },
    )
    | inr (pos, present) ↦
        let d = t.distinct i bucket.0 bucket.1 in
        (
          store c i (without k bucket.0),
          rw present (
              del_chain (
                find_lem del_item_from_list (
                  find_in-drops del_item_from_list hash_item k bucket.0 (in_bucket present)
                    (del_drops pos)))),
          store-Updated (without k bucket.0) t l.bound bucket.1 (without-IsDistinct k bucket.0 d)
              (lookup-without k bucket.0 d) (λ other ne. lookup-without_other k other bucket.0 ne),
        )
  ]

  -- Getting a key whose hash is there returns 1 and what the string function copies of its value over
  -- the caller's array, and leaves the table as it is.
  pub get_copies :
      {pos : Item} {val dst out : Bytes} {len : ℕ}
      → entry c i k ≡ some pos
      → pos.val ≡ some val
      → hash_item.val ≡ some dst
      → hal.strlen val ≡ some len
      → hal.strncpy dst val len ≡ some out
      → utils_hash_item_get hal (some c) hash_item
        ≡ some (1, some c, record hash_item { val = some out })
  get_copies {pos} present x y z u = get_chain (
      find_same (get_item_val hal) (
        find_in-keeps (get_item_val hal) hash_item k bucket.0 (in_bucket present)
          (get_steps hal pos hash_item x y z u)))

  -- Getting a key whose hash is not there returns 0 and changes nothing.
  pub get_missing :
      entry c i k ≡ none → utils_hash_item_get hal (some c) hash_item ≡ some (0, some c, hash_item)
  get_missing absent = get_chain (
      find_same (get_item_val hal)
        (find_in-none (get_item_val hal) hash_item k bucket.0 (in_bucket absent)))

-- What is added is what is got: the table that adding a new key gives returns 1 for a get of that key,
-- with the copy of the value over the caller's array, when the string functions measure the value and
-- make the two copies.
pub get-add :
    {hal : Hal} (m : IsMutex hal) {c : Context hal} (t : IsTable c) (key : Bytes) {i k : ℕ}
    (l : Located c (some key) i k) (replace_ok : Bool) {src val dst out : Bytes} {len : ℕ}
    → entry c i k ≡ none
    → hal.strlen src ≡ some len
    → hal.strncpy (replicate (hal.align4_up (u32 len)) 0) src (u32 len) ≡ some val
    → hal.strlen val ≡ some len
    → hal.strncpy dst val len ≡ some out
    → (c' : Context hal) × (utils_hash_item_add hal replace_ok true true
          (some c)
          (some (record { key = some key; val = some src }))
        ≡ some (hal.no_err, some c'))
      × (utils_hash_item_get hal (some c') (record { key = some key; val = some dst })
          ≡ some (1, some c', record { key = some key; val = some out }))
get-add {hal} m {c} t key {i} {k} l replace_ok {src} {val} {dst} {out} absent a b d e =
    let r =
      add_inserts m t (record { key = some key; val = some src }) l replace_ok absent refl a b in
    (
      r.0,
      r.1,
      get_copies m r.2.valid (record { key = some key; val = some dst })
          (record {
            index =
                ap (λ (g : HashConfig). key_to_index hal g.bucket_max_len (some key))
                  r.2.same_config
                ∙ l.index;
            bound =
                omega (arith, l.bound, ap (λ (g : HashConfig). g.bucket_max_len) r.2.same_config);
            hash = l.hash;
          })
          r.2.here refl refl d e,
    )
