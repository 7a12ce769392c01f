-- ===== src/Context/Walk.antt =====
-- `walkBfs` of services/context-retrieval.service.ts. A `Map` is the list of its entries in the order
-- in which they were set; the queue is a list.
use ai_pr_reviewer.Prelude.{
  ℕ, zero, suc, ◌+◌, Option, none, some, List, [], ◌∷◌, ◌++◌, leb, if◌then◌else◌, length, map,
}
use ai_pr_reviewer.Store.{Text, text_eq}

-- A path with its number of hops, in `distance` and in `queue`.
abbrev pub Entry : Type 0
Entry = Text × ℕ

abbrev pub Edges : Type 0
Edges = List (Text × List Text)

-- `distance.get(path)`
abbrev pub hops_of : Text → List Entry → Option ℕ
hops_of x [] = none
hops_of x ((y, d) ∷ es) = if text_eq y x then some d else hops_of x es

-- `edges.get(path) ?? []`
abbrev pub targets_of : Text → Edges → List Text
targets_of x [] = []
targets_of x ((y, ts) ∷ es) = if text_eq y x then ts else targets_of x es

abbrev pub neighbours : Edges → Edges → Text → List Text
neighbours forward reverse path = targets_of path forward ++ targets_of path reverse

-- The loop over the neighbours of a path: those without a distance get `next_hop`.
unfoldable pub visit : ℕ → List Text → List Entry × List Entry → List Entry × List Entry
visit next_hop [] s = s
visit next_hop (n ∷ ns) (distance, queue) = elim (hops_of n distance) [
  | some d ↦ visit next_hop ns (distance, queue)
  | none ↦ visit next_hop ns (distance ++ (n, next_hop) ∷ [], queue ++ (n, next_hop) ∷ [])
]

-- One turn of the loop, after the shift of the queue.
unfoldable pub walk_from :
    (Text → List Text) → ℕ → Text → ℕ → List Entry × List Entry → List Entry × List Entry
walk_from near max_hops path hop s = if leb max_hops hop then s else visit (suc hop) (near path) s

unfoldable pub walk_queue :
    ℕ → (Text → List Text) → ℕ → List Entry × List Entry → Option (List Entry)
walk_queue fuel near max_hops (distance, []) = some distance
walk_queue zero near max_hops (distance, e ∷ queue) = none
walk_queue (suc fuel) near max_hops (distance, (path, hop) ∷ queue) =
    walk_queue fuel near max_hops (walk_from near max_hops path hop (distance, queue))

abbrev pub all_targets : Edges → List Text
all_targets [] = []
all_targets ((x, ts) ∷ es) = ts ++ all_targets es

abbrev pub at_start : Text → Entry
at_start path = (path, 0)

-- A turn for each changed path and for each end of an edge is enough.
abbrev pub turns : List Text → Edges → Edges → ℕ
turns changed forward reverse = length changed + length (all_targets forward ++ all_targets reverse)

unfoldable pub walk_bfs : List Text → Edges → Edges → ℕ → Option (List Entry)
walk_bfs changed forward reverse max_hops =
    walk_queue (turns changed forward reverse) (neighbours forward reverse) max_hops
      (map at_start changed, map at_start changed)
