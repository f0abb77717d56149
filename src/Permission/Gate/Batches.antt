-- ===== src/Permission/Gate/Batches.antt =====
-- The batch of questions: nothing runs that was not answered yes.
use supra_harness.Prelude.{
  ℕ, zero, suc, ◌≡◌, ◌≢◌, ◌⊎◌, Bool, true, some, List, [], ◌∷◌, length, get_elem?, arith, refl,
}
use supra_harness.Permission.Gate.{
  Request, runs, refuses, not_answered, Batch, resolve_items, resolve_batch,
}

length-resolve_items :
    (items : List Request) (answers : List Bool)
    → length (resolve_items items answers) ≡ length items
unfolding resolve_items
length-resolve_items [] answers = refl
length-resolve_items (item ∷ items) [] = ground (arith, length-resolve_items items [])
length-resolve_items (item ∷ items) (answer ∷ answers) =
    ground (arith, length-resolve_items items answers)

get-resolve_items :
    (items : List Request) (answers : List Bool) (i : ℕ) (request : Request)
    → get_elem? items i ≡ some request
    → ((get_elem? (resolve_items items answers) i ≡ some runs) × (get_elem? answers i ≡ some true))
      ⊎ ((get_elem? (resolve_items items answers) i ≡ some (refuses (not_answered request.summary)))
          × (get_elem? answers i ≢ some true))
unfolding resolve_items
get-resolve_items [] answers i request h = ground arith
get-resolve_items (item ∷ items) [] zero request h = ground arith
get-resolve_items (item ∷ items) (answer ∷ answers) zero request h = ground arith
get-resolve_items (item ∷ items) [] (suc i) request h =
    ground (arith, get-resolve_items items [] i request)
get-resolve_items (item ∷ items) (answer ∷ answers) (suc i) request h =
    get-resolve_items items answers i request h

-- A batch gets one outcome for each of its questions, in order. The question at place `i` runs exactly
-- when its own answer is yes; one answered no, or not answered because the list of answers is short, is refused
-- under its summary.
pub resolve_batch_exact :
    (batch : Batch) (answers : List Bool) (i : ℕ) (request : Request)
    → get_elem? batch.items i ≡ some request
    → (length (resolve_batch batch answers) ≡ length batch.items)
      × (((get_elem? (resolve_batch batch answers) i ≡ some runs)
            × (get_elem? answers i ≡ some true))
          ⊎ ((get_elem? (resolve_batch batch answers) i
                ≡ some (refuses (not_answered request.summary)))
              × (get_elem? answers i ≢ some true)))
unfolding resolve_batch
resolve_batch_exact batch answers i request h =
    (length-resolve_items batch.items answers, get-resolve_items batch.items answers i request h)
