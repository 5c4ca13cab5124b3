-- ===== src/Protocol/Translation/Answers.antt =====
-- translation_protocol.py, `require_matching_result`, against a description of the answers: which
-- fields of a response echo its request.
use cadplot_mcp.Prelude.{◌≡◌, ◌↔◌, Option, none, some, arith}
use cadplot_mcp.Prelude.Results.{ok}
use cadplot_mcp.Protocol.Translation.{
  TranslationRequest, TranslationResponse, require_matching_result, HashId,
}

-- The inventory that was asked for, if one was.
abbrev pub Echoes : Option HashId → HashId → Type 0
Echoes none b = Unit
Echoes (some a) b = a ≡ b

-- A response answers a request of the same operation, on the inventory and the page, the review and
-- the plan that the request names.
abbrev pub Answers : TranslationRequest → TranslationResponse → Type 0
Answers (TranslationRequest.scan q) (TranslationResponse.scan a) =
    Echoes q.inventory_id a.inventory_id × (q.offset ≡ a.offset)
Answers (TranslationRequest.review q) (TranslationResponse.review a) =
    q.inventory_id ≡ a.inventory_id
Answers (TranslationRequest.plan q) (TranslationResponse.plan a) =
    (q.inventory_id ≡ a.inventory_id) × (q.offset ≡ a.offset) × (q.review_id ≡ a.review_id)
Answers (TranslationRequest.apply q) (TranslationResponse.apply a) =
    (q.inventory_id ≡ a.inventory_id)
    × (q.review_id ≡ a.review_id)
    × (q.approved_plan_id ≡ a.plan_id)
Answers _ _ = ⊥

-- `require_matching_result` accepts a response just where it answers the request.
pub require_matching_result-Answers :
    (q : TranslationRequest) (a : TranslationResponse)
    → (require_matching_result q a ≡ ok tt) ↔ Answers q a
unfolding require_matching_result
require_matching_result-Answers q a = ground arith
