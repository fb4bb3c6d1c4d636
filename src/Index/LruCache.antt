-- ===== src/Index/LruCache.antt =====
-- include/coredesk/index/LruCache.h. The list `items_` keeps the most recent item at the front; the
-- map `entries_` leads from a key to a position in the list, which the model writes as the number
-- that the node got when it was made. A position that no node has would be a dangling iterator:
-- the outer `none` of a result. A call holds the mutex from its start to its end, so that calls
-- are steps that do not overlap.
pub mod Nodes
pub mod Places
pub mod Spec
pub mod Kept
pub mod Moves
pub mod Refines
pub mod History
pub mod Examples
use core_desk.Base.{
  ℕ, suc, ◌+◌, ◌==◌, ltb, if◌then◌else◌, List, [], ◌∷◌, Option, none, some, length,
}
use core_desk.Base.Eq.{Eq}

pub record Node {ℓ} (K V : Type ℓ) : Type ℓ where
  pub place : ℕ
  pub key : K
  pub value : V

pub record LruCache {ℓ} (K V : Type ℓ) : Type ℓ where
  pub capacity : ℕ
  pub items : List (Node K V)
  pub entries : List (K × ℕ)
  -- The place of the next node that is made.
  pub fresh : ℕ

-- `LruCache(capacity)`.
unfoldable pub make {ℓ} : {K V : Type ℓ} → ℕ → LruCache K V
make capacity = record {
  capacity = if capacity == 0 then 1 else capacity;
  items = [];
  entries = [];
  fresh = 0;
}

module _ {ℓ} {K V : Type ℓ} where
  -- The node at a position.
  pub node_at : ℕ → List (Node K V) → Option (Node K V)
  node_at place [] = none
  node_at place (n ∷ ns) = if n.place == place then some n else node_at place ns

  pub without : ℕ → List (Node K V) → List (Node K V)
  without place [] = []
  without place (n ∷ ns) = if n.place == place then ns else n ∷ without place ns

  -- `std::prev(items_.end())` and `items_.pop_back()`.
  pub last : List (Node K V) → Option (Node K V)
  last [] = none
  last (n ∷ []) = some n
  last (n ∷ m ∷ ns) = last (m ∷ ns)

  pub pop_back : List (Node K V) → List (Node K V)
  pop_back [] = []
  pop_back (n ∷ []) = []
  pop_back (n ∷ m ∷ ns) = n ∷ pop_back (m ∷ ns)

  unfoldable pub clear : LruCache K V → LruCache K V
  clear c = record c { items = []; entries = [] }

  unfoldable pub size : LruCache K V → ℕ
  size c = length c.items

module _ {ℓ} {K : Type ℓ} ⦃e : Eq K⦄ where
  -- `entries_.find(key)`.
  pub find : K → List (K × ℕ) → Option ℕ
  find key [] = none
  find key ((k, place) ∷ rest) = if e.beq k key then some place else find key rest

  pub erase : K → List (K × ℕ) → List (K × ℕ)
  erase key [] = []
  erase key ((k, place) ∷ rest) =
      if e.beq k key then erase key rest else (k, place) ∷ erase key rest

module _ {ℓ} {K V : Type ℓ} ⦃e : Eq K⦄ where
  -- `items_.splice(items_.begin(), items_, it)`, with the node at its new place.
  abbrev splice : LruCache K V → Node K V → LruCache K V
  splice c n = record c { items = n ∷ without n.place c.items }

  unfoldable pub get : LruCache K V → K → Option (LruCache K V × Option V)
  unfolding find node_at without
  get c key = elim (find key c.entries) [
    | none ↦ some (c, none)
    | some place ↦ elim (node_at place c.items) [
      | none ↦ none
      | some n ↦ some (splice c n, some n.value)
    ]
  ]

  -- The end of `put`: `if (items_.size() > capacity_)`.
  pub evict : LruCache K V → Option (LruCache K V)
  unfolding erase last pop_back
  evict c =
      if ltb c.capacity (length c.items)
      then elim (last c.items) [
        | none ↦ none
        | some n ↦ some (record c { entries = erase n.key c.entries; items = pop_back c.items })
      ]
      else some c

  pub add_front : LruCache K V → K → V → LruCache K V
  add_front c key value = record c {
    items = record { place = c.fresh; key = key; value = value } ∷ c.items;
    entries = (key, c.fresh) ∷ c.entries;
    fresh = c.fresh + 1;
  }

  unfoldable pub put : LruCache K V → K → V → Option (LruCache K V)
  unfolding find node_at without evict add_front
  put c key value = elim (find key c.entries) [
    | none ↦ evict (add_front c key value)
    | some place ↦ elim (node_at place c.items) [
      | none ↦ none
      | some n ↦ some (splice c (record n { value = value }))
    ]
  ]
