-- ===== src/Hash/Chain.antt =====
-- One bucket of the hash table, as a finite map from key hashes to items.
use mathlib.Core.Option.{some-injective}
use libhy_utils_bak.Base.{
  ℕ, ◌≡◌, ◌≢◌, refl, sym, ap, ◌∙◌, Bool, true, false, Option, none, some, List, [], ◌∷◌, ◌==◌,
  ==_iff, if◌then◌else◌, arith, inl, inr, Bool-cases,
}
use libhy_utils_bak.Hash.{Item, HashItem, Callback, find_in}

-- the item that a search for a hash comes to
unfoldable pub lookup : ℕ → List Item → Option Item
lookup key_hash [] = none
lookup key_hash (pos ∷ items) =
    let rest = lookup key_hash items in if pos.key_hash == key_hash then some pos else rest

-- no two items have one hash
unfoldable pub IsDistinct : List Item → Type 0
unfolding lookup
IsDistinct [] = Unit
IsDistinct (pos ∷ items) = (lookup pos.key_hash items ≡ none) × IsDistinct items

-- a bucket without the item
unfoldable pub without : ℕ → List Item → List Item
without key_hash [] = []
without key_hash (pos ∷ items) =
    let rest = without key_hash items in if pos.key_hash == key_hash then items else pos ∷ rest

module _ (cb : Callback) (hash_item : HashItem) (key_hash : ℕ) where
  first :
      (p : Item) (items : List Item) {pos : Item}
      → (p.key_hash == key_hash) ≡ true
      → lookup key_hash (p ∷ items) ≡ some pos
      → p ≡ pos
  unfolding lookup
  first p items {pos} e h =
      some-injective p pos
        (ap (λ (b : Bool). if b then some p else lookup key_hash items) (sym e) ∙ h)

  -- A search that finds nothing changes nothing.
  pub find_in-none :
      (items : List Item)
      → lookup key_hash items ≡ none
      → find_in cb hash_item key_hash items ≡ some (false, items, hash_item)
  unfolding find_in lookup
  find_in-none [] h = refl
  find_in-none (pos ∷ items) h = elim (Bool-cases (pos.key_hash == key_hash)) [
    | inl e ↦ absurd (ground (arith, h, e))
    | inr e ↦ rw e (rw (find_in-none items (ground (arith, h, e))) refl)
  ]

  -- A search whose callback faults at the item found faults.
  pub find_in-faults :
      (items : List Item) {pos : Item}
      → lookup key_hash items ≡ some pos
      → cb pos hash_item ≡ none
      → find_in cb hash_item key_hash items ≡ none
  unfolding find_in lookup
  find_in-faults [] h k = absurd (ground (arith, h))
  find_in-faults (p ∷ items) h k = elim (Bool-cases (p.key_hash == key_hash)) [
    | inl e ↦ rw e (rw (ap (λ (t : Item). cb t hash_item) (first p items e h) ∙ k) refl)
    | inr e ↦ rw e (rw (find_in-faults items (ground (arith, h, e)) k) refl)
  ]

  -- A callback that keeps its item leaves the bucket as it is.
  pub find_in-keeps :
      (items : List Item) {pos : Item} {out : HashItem}
      → lookup key_hash items ≡ some pos
      → cb pos hash_item ≡ some (some pos, out)
      → find_in cb hash_item key_hash items ≡ some (true, items, out)
  unfolding find_in lookup
  find_in-keeps [] h k = absurd (ground (arith, h))
  find_in-keeps (p ∷ items) {out = out} h k = elim (Bool-cases (p.key_hash == key_hash)) [
    | inl e ↦ rw e (
        rw (ap (λ (t : Item). cb t hash_item) (first p items e h) ∙ k)
          (ap (λ (t : Item). some (true, t ∷ items, out)) (sym (first p items e h))))
    | inr e ↦ rw e (rw (find_in-keeps items (ground (arith, h, e)) k) refl)
  ]

  -- A callback that takes its item out leaves the others.
  pub find_in-drops :
      (items : List Item) {pos : Item} {out : HashItem}
      → lookup key_hash items ≡ some pos
      → cb pos hash_item ≡ some (none, out)
      → find_in cb hash_item key_hash items ≡ some (true, without key_hash items, out)
  unfolding find_in lookup without
  find_in-drops [] h k = absurd (ground (arith, h))
  find_in-drops (p ∷ items) h k = elim (Bool-cases (p.key_hash == key_hash)) [
    | inl e ↦ rw e (rw (ap (λ (t : Item). cb t hash_item) (first p items e h) ∙ k) refl)
    | inr e ↦ rw e (rw (find_in-drops items (ground (arith, h, e)) k) refl)
  ]

-- the item that was found has the hash looked for
pub lookup-key_hash :
    (key_hash : ℕ) (items : List Item) {pos : Item}
    → lookup key_hash items ≡ some pos
    → pos.key_hash ≡ key_hash
unfolding lookup
lookup-key_hash key_hash [] h = absurd (ground (arith, h))
lookup-key_hash key_hash (p ∷ items) {pos} h = elim (Bool-cases (p.key_hash == key_hash)) [
  | inl e ↦
      ap (λ (t : Item). t.key_hash)
        (sym (
          some-injective p pos
            (ap (λ (b : Bool). if b then some p else lookup key_hash items) (sym e) ∙ h)))
      ∙ (==_iff p.key_hash key_hash).0 e
  | inr e ↦
      lookup-key_hash key_hash items
        (ap (λ (b : Bool). if b then some p else lookup key_hash items) (sym e) ∙ h)
]

pub lookup-without :
    (key_hash : ℕ) (items : List Item)
    → IsDistinct items
    → lookup key_hash (without key_hash items) ≡ none
unfolding lookup without IsDistinct
lookup-without key_hash [] d = refl
lookup-without key_hash (p ∷ items) d = ground (arith, d.0, lookup-without key_hash items d.1)

pub lookup-without_other :
    (key_hash other : ℕ) (items : List Item)
    → key_hash ≢ other
    → lookup other (without key_hash items) ≡ lookup other items
unfolding lookup without
lookup-without_other key_hash other [] ne = refl
lookup-without_other key_hash other (p ∷ items) ne =
    ground (arith, ne, lookup-without_other key_hash other items ne)

lookup-without-none :
    (key_hash other : ℕ) (items : List Item)
    → lookup other items ≡ none
    → lookup other (without key_hash items) ≡ none
unfolding lookup without
lookup-without-none key_hash other [] h = refl
lookup-without-none key_hash other (p ∷ items) h =
    ground (arith, h, lookup-without-none key_hash other items)

pub without-IsDistinct :
    (key_hash : ℕ) (items : List Item) → IsDistinct items → IsDistinct (without key_hash items)
unfolding lookup without IsDistinct
without-IsDistinct key_hash [] d = d
without-IsDistinct key_hash (p ∷ items) d = elim (Bool-cases (p.key_hash == key_hash)) [
  | inl e ↦ rw e d.1
  | inr e ↦
      rw e
        (lookup-without-none key_hash p.key_hash items d.0, without-IsDistinct key_hash items d.1)
]
