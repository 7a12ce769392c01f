-- ===== src/Delivery/Race.antt =====
-- One comment under every interleaving: workers that run `send` of
-- services/comment-delivery.service.ts, the reconciliation, the omissions and the disconnect. Each
-- database write is one step; between any two steps another actor may act, and a worker may die.
use ai_pr_reviewer.Prelude.{
  ℕ, zero, suc, ◌+◌, ◌≡◌, Bool, true, false, Option, some, List, [], ◌∷◌, get_elem?,
}
use ai_pr_reviewer.Delivery.Row.{
  CommentDelivery, Match, Reason, expire_claim, reconcile_row, omit_unsent, omit_ready,
  upgrade_payload, claim_row, may_post, ready_summary, disconnect_row,
}
use ai_pr_reviewer.Delivery.Outcome.{CommentPostResult, retryable_post, is_failure, settle}

-- Where a worker stands in `send`: it has claimed the row; it is past the second look and its request
-- is out; it has an answer to write down; or it is through (or dead). `did` is whether GitHub created
-- the comment, which no worker sees.
pub data Worker : Type 0 where
  claimed : (token : ℕ) → (hash : Option ℕ) → Worker
  posting : (token : ℕ) → (hash : Option ℕ) → (attempts : ℕ) → Worker
  answered :
      (token : ℕ) → (hash : Option ℕ) → (attempts : ℕ) → (did : Bool) → CommentPostResult → Worker
  gone : Worker

-- The row, the workers, the next token of `randomUUID`, and how many comments GitHub created.
pub record Race : Type 0 where
  pub row : CommentDelivery
  pub workers : List Worker
  pub next_token : ℕ
  pub created : ℕ

abbrev pub bit : Bool → ℕ
bit true = 1
bit false = 0

abbrev pub set_worker : List Worker → ℕ → Worker → List Worker
set_worker [] i w = []
set_worker (x ∷ ws) zero w = w ∷ ws
set_worker (x ∷ ws) (suc i) w = x ∷ set_worker ws i w

-- A rate-limited answer means that GitHub created nothing (REST API documentation, "Rate limits").
abbrev pub IsHonest : Bool → CommentPostResult → Type 0
IsHonest did result = is_failure retryable_post result.failure ≡ true → did ≡ false

pub data Step (u v : Race) : Type 0 where
  claims :
      (now : ℕ) (hash : Option ℕ)
      → (claim_row now u.next_token hash u.row).1 ≡ true
      → v ≡ record u {
        row = (claim_row now u.next_token hash u.row).0;
        workers = claimed u.next_token hash ∷ u.workers;
        next_token = u.next_token + 1;
      }
      → Step u v
  starts :
      (i now token : ℕ) (hash : Option ℕ)
      → get_elem? u.workers i ≡ some (claimed token hash)
      → may_post now token u.row ≡ true
      → v ≡ record u { workers = set_worker u.workers i (posting token hash u.row.attempts) }
      → Step u v
  answers :
      (i token : ℕ) (hash : Option ℕ) (attempts : ℕ) (did : Bool) (result : CommentPostResult)
      → get_elem? u.workers i ≡ some (posting token hash attempts)
      → IsHonest did result
      → v ≡ record u {
        workers = set_worker u.workers i (answered token hash attempts did result);
        created = u.created + bit did;
      }
      → Step u v
  settles :
      (i created_at now token : ℕ) (hash : Option ℕ) (attempts : ℕ) (did : Bool)
      (result : CommentPostResult)
      → get_elem? u.workers i ≡ some (answered token hash attempts did result)
      → v ≡ record u {
        row = settle created_at now attempts token hash result u.row;
        workers = set_worker u.workers i gone;
      }
      → Step u v
  stops :
      (i : ℕ) (w : Worker)
      → get_elem? u.workers i ≡ some w
      → v ≡ record u { workers = set_worker u.workers i gone }
      → Step u v
  -- A request that is out may still be carried out after its worker has died.
  dies :
      (i token : ℕ) (hash : Option ℕ) (attempts : ℕ) (did : Bool)
      → get_elem? u.workers i ≡ some (posting token hash attempts)
      → v ≡ record u { workers = set_worker u.workers i gone; created = u.created + bit did }
      → Step u v
  upgrades :
      (hash : Option ℕ) (body body_hash : ℕ)
      → v ≡ record u { row = (upgrade_payload hash body body_hash u.row).0 }
      → Step u v
  expires : (now : ℕ) → v ≡ record u { row = expire_claim now u.row } → Step u v
  reconciles :
      (hash : Option ℕ) (complete : Bool) (ms : List Match)
      → v ≡ record u { row = reconcile_row hash complete ms u.row }
      → Step u v
  omits : (reason : Reason) → v ≡ record u { row = omit_unsent reason u.row } → Step u v
  drops : (reason : Reason) → v ≡ record u { row = omit_ready reason u.row } → Step u v
  readies :
      (body body_hash : ℕ) → v ≡ record u { row = ready_summary body body_hash u.row } → Step u v
  disconnects : v ≡ record u { row = disconnect_row u.row } → Step u v

pub data Reach (u : Race) : Race → Type 0 where
  here : Reach u u
  next : {v w : Race} → Reach u v → Step v w → Reach u w
