-- ===== src/Index/LruCache/Examples.antt =====
-- The cache of include/coredesk/index/LruCache.h on calls written out.
use core_desk.Base.{ℕ, ◌≤◌, ◌≡◌, refl, List, [], ◌∷◌, none, some}
use core_desk.Base.Eq.{nat_has_eq}
use core_desk.Index.LruCache.{LruCache, make, get, put, size}
use core_desk.Index.LruCache.Nodes.{view}
use core_desk.Index.LruCache.Spec.{lookup, recent_get, recent_put}
use core_desk.Index.LruCache.Moves.{Moves, make-IsValid, get-Moves}
use core_desk.Index.LruCache.Refines.{put-Moves}
use core_desk.Index.LruCache.History.{Call, Reply, calls, spec_calls, make-calls}

abbrev two_kept : List (Call ℕ ℕ)
two_kept =
    Call.put_call 1 10
    ∷ Call.put_call 2 20
    ∷ Call.get_call 1
    ∷ Call.put_call 3 30
    ∷ Call.get_call 2
    ∷ Call.get_call 1
    ∷ Call.size_call
    ∷ []

two_kept_replies :
    spec_calls 2 [] two_kept
    ≡ Reply.stored
      ∷ Reply.stored
      ∷ Reply.got (some 10)
      ∷ Reply.stored
      ∷ Reply.got none
      ∷ Reply.got (some 10)
      ∷ Reply.counted 2
      ∷ []
two_kept_replies = refl

make-calls_example :
    (c : LruCache ℕ ℕ) × (calls (make 2) two_kept ≡ some (c, spec_calls 2 [] two_kept))
    × (size c ≤ 2)
make-calls_example = make-calls 2 two_kept

-- A cache of two pairs, the second more recent.
abbrev one_two :
    (c : LruCache ℕ ℕ) × (put (make 2) 1 10 ≡ some c)
    × Moves
        (make 2)
        (recent_put (make {K = ℕ} {V = ℕ} 2).capacity 1 10 (view (make {K = ℕ} 2).items))
        c
one_two = put-Moves (make 2) 1 10 (make-IsValid 2)

get-Moves_example :
    (c : LruCache ℕ ℕ) × (get one_two.0 1 ≡ some (c, lookup 1 (view one_two.0.items)))
    × Moves one_two.0 (recent_get 1 (view one_two.0.items)) c
get-Moves_example = get-Moves one_two.0 1 one_two.2.valid

put-Moves_example :
    (c : LruCache ℕ ℕ) × (put one_two.0 2 20 ≡ some c)
    × Moves one_two.0 (recent_put one_two.0.capacity 2 20 (view one_two.0.items)) c
put-Moves_example = put-Moves one_two.0 2 20 one_two.2.valid
