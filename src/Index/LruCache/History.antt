-- ===== src/Index/LruCache/History.antt =====
-- A whole life of the cache: any calls, one after the other, on a cache that was just made.
use core_desk.Base.{
  ℕ, ◌==◌, ◌≤◌, ◌≡◌, refl, sym, ap, ◌∙◌, subst, List, [], ◌∷◌, Option, none, some, length,
  if◌then◌else◌,
}
use core_desk.Base.Eq.{Eq}
use core_desk.Index.LruCache.{LruCache, make, get, put, clear, size}
use core_desk.Index.LruCache.Nodes.{view, length-view}
use core_desk.Index.LruCache.Spec.{lookup, recent_get, recent_put}
use core_desk.Index.LruCache.Moves.{IsValid, Moves, make-IsValid, clear-IsValid, get-Moves}
use core_desk.Index.LruCache.Refines.{put-Moves}

-- The calls, and what they return.
pub data Call {ℓ} (K V : Type ℓ) : Type ℓ where
  get_call : K → Call K V
  put_call : K → V → Call K V
  clear_call size_call : Call K V

pub data Reply {ℓ} (V : Type ℓ) : Type ℓ where
  got : Option V → Reply V
  stored cleared : Reply V
  counted : ℕ → Reply V

module _ {ℓ} {K V : Type ℓ} ⦃e : Eq K⦄ where
  abbrev pub call : LruCache K V → Call K V → Option (LruCache K V × Reply V)
  call c (Call.get_call k) = elim (get c k) [ none ↦ none | some (c', v) ↦ some (c', Reply.got v) ]
  call c (Call.put_call k v) = elim (put c k v) [ none ↦ none | some c' ↦ some (c', Reply.stored) ]
  call c Call.clear_call = some (clear c, Reply.cleared)
  call c Call.size_call = some (c, Reply.counted (size c))

  abbrev pub calls : LruCache K V → List (Call K V) → Option (LruCache K V × List (Reply V))
  calls c [] = some (c, [])
  calls c (o ∷ os) = elim (call c o) [
    | none ↦ none
    | some (c', r) ↦ elim (calls c' os) [ none ↦ none | some (c'', rs) ↦ some (c'', r ∷ rs) ]
  ]

  -- The same calls on the list of recent pairs.
  abbrev pub spec_call : ℕ → List (K × V) → Call K V → List (K × V) × Reply V
  spec_call n l (Call.get_call k) = (recent_get k l, Reply.got (lookup k l))
  spec_call n l (Call.put_call k v) = (recent_put n k v l, Reply.stored)
  spec_call n l Call.clear_call = ([], Reply.cleared)
  spec_call n l Call.size_call = (l, Reply.counted (length l))

  abbrev pub spec_calls : ℕ → List (K × V) → List (Call K V) → List (Reply V)
  spec_calls n l [] = []
  spec_calls n l (o ∷ os) = let (l', r) = spec_call n l o in r ∷ spec_calls n l' os

  call-Moves :
      (c : LruCache K V) (o : Call K V)
      → IsValid c
      → (c' : LruCache K V) × (call c o ≡ some (c', (spec_call c.capacity (view c.items) o).1))
        × Moves c (spec_call c.capacity (view c.items) o).0 c'
  unfolding clear size
  call-Moves c (Call.get_call k) v =
      let (c', done, moves) = get-Moves c k v in (c', rw (done, call) refl, moves)
  call-Moves c (Call.put_call k x) v =
      let (c', done, moves) = put-Moves c k x v in (c', rw (done, call) refl, moves)
  call-Moves c Call.clear_call v =
      (clear c, refl, record { valid = clear-IsValid c v; items = refl; capacity = refl })
  call-Moves c Call.size_call v = (
    c,
    ap (λ x. some (c, Reply.counted x)) (sym (length-view c.items)),
    record { valid = v; items = refl; capacity = refl },
  )

  calls_lem :
      (os : List (Call K V)) (c : LruCache K V) (n : ℕ) (l : List (K × V))
      → IsValid c
      → c.capacity ≡ n
      → view c.items ≡ l
      → (c' : LruCache K V) × (calls c os ≡ some (c', spec_calls n l os))
        × IsValid c'
        × (c'.capacity ≡ n)
  calls_lem [] c n l v same items = (c, refl, v, same)
  calls_lem (o ∷ os) c n l v same items =
      let (c', done, moves) = call-Moves c o v in
      let done' : call c o ≡ some (c', (spec_call n l o).1) =
        done
        ∙ ap (λ x. some (c', (spec_call x (view c.items) o).1)) same
        ∙ ap (λ x. some (c', (spec_call n x o).1)) items in
      let items' : view c'.items ≡ (spec_call n l o).0 =
        moves.items
        ∙ ap (λ x. (spec_call x (view c.items) o).0) same
        ∙ ap (λ x. (spec_call n x o).0) items in
      let (c'', later, valid, kept) =
        calls_lem os c' n (spec_call n l o).0 moves.valid (moves.capacity ∙ same) items' in
      (c'', rw (done', calls, later) refl, valid, kept)

  -- Whatever calls are made on a new cache, no iterator dangles, each call returns what the list of
  -- the most recent pairs returns, which is cut to the capacity (1 for a capacity of 0) after each
  -- put, and at the end there are at most that many items.
  pub make-calls :
      (capacity : ℕ) (os : List (Call K V))
      → let n = if capacity == 0 then 1 else capacity in
        (c' : LruCache K V) × (calls (make capacity) os ≡ some (c', spec_calls n [] os))
        × (size c' ≤ n)
  unfolding make size
  make-calls capacity os =
      let (c', done, valid, same) =
        calls_lem os (make capacity) (if capacity == 0 then 1 else capacity) []
          (make-IsValid capacity) refl refl in
      (c', done, subst (λ x. length c'.items ≤ x) same valid.bounded)
