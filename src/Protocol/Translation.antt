-- ===== src/Protocol/Translation.antt =====
-- packages/protocol/src/cadplot_protocol/translation_protocol.py: requests and answers of the
-- drawing translation. Identifiers are fixed-format strings that the code only compares: numbers.
pub mod Answers
mod Tests
use cadplot_mcp.Prelude.{ℕ, String, Bool, false, not, Option, none, some, List, ◌==◌}
use cadplot_mcp.Prelude.Results.{Result, ok, err, refuse}

abbrev pub HashId : Type 0
HashId = ℕ

abbrev pub OpaqueOperation : Type 0
OpaqueOperation = ℕ

pub data Language : Type 0 where
  tr en other uncertain : Language

pub record RemoteDecision : Type 0 where
  pub span_id : String
  pub source : String
  pub source_language : Language
  pub target : String

pub record ScanTexts : Type 0 where
  pub inventory_id : Option HashId
  pub offset : ℕ
  pub limit : ℕ

pub record SubmitReview : Type 0 where
  pub inventory_id : HashId
  pub expected_review_id : Option HashId
  pub decisions : List RemoteDecision

pub record PlanTranslation : Type 0 where
  pub inventory_id : HashId
  pub review_id : HashId
  pub offset : ℕ
  pub limit : ℕ

pub record ApplyTranslation : Type 0 where
  pub inventory_id : HashId
  pub review_id : HashId
  pub approved_plan_id : HashId
  pub plan_operation_id : OpaqueOperation

-- The union is discriminated by `operation`, so each constructor is one value of that field.
pub data TranslationRequest : Type 0 where
  scan : ScanTexts → TranslationRequest
  review : SubmitReview → TranslationRequest
  plan : PlanTranslation → TranslationRequest
  apply : ApplyTranslation → TranslationRequest

pub record Span : Type 0 where
  pub id : String
  pub text : String
  pub normalized_for_search : String

pub record Record : Type 0 where
  pub id : String
  pub kind : String
  pub block : String
  pub layer : String
  pub raw : String
  pub spans : List Span
  pub writable : Bool

pub record ScanResult : Type 0 where
  pub inventory_id : HashId
  pub total_records : ℕ
  pub total_review_spans : ℕ
  pub offset : ℕ
  pub next_offset : Option ℕ
  pub records : List Record
  pub blocker_count : ℕ
  pub blocker_codes : List String

pub record ReviewResult : Type 0 where
  pub inventory_id : HashId
  pub review_id : HashId
  pub reviewed_spans : ℕ

pub record Change : Type 0 where
  pub record_id : String
  pub before : String
  pub after : String

pub record PlanResult : Type 0 where
  pub inventory_id : HashId
  pub review_id : HashId
  pub plan_id : HashId
  pub ready : Bool
  pub changed_records : ℕ
  pub reviewed_spans : ℕ
  pub offset : ℕ
  pub next_offset : Option ℕ
  pub changes : List Change
  pub blocker_count : ℕ
  pub blocker_codes : List String

-- The fields of type `Literal[True]` and `Literal[False]` hold no choice and are left out.
pub record ApplyResult : Type 0 where
  pub inventory_id : HashId
  pub review_id : HashId
  pub plan_id : HashId
  pub output_id : HashId
  pub output_sha256 : HashId
  pub changed_records : ℕ

pub data TranslationResponse : Type 0 where
  scan : ScanResult → TranslationResponse
  review : ReviewResult → TranslationResponse
  plan : PlanResult → TranslationResponse
  apply : ApplyResult → TranslationResponse

pub data Mismatch : Type 0 where
  translation_operation_mismatch translation_inventory_mismatch : Mismatch
  translation_page_mismatch translation_review_mismatch translation_plan_mismatch : Mismatch

-- `request.inventory_id is not None and request.inventory_id != response.inventory_id`
abbrev pub other_inventory : Option HashId → HashId → Bool
other_inventory none b = false
other_inventory (some a) b = not (a == b)

-- The pairs with one `operation` come first; every other pair is a mismatch of operations.
unfoldable pub require_matching_result :
    TranslationRequest → TranslationResponse → Result Mismatch (Unit {0})
require_matching_result (TranslationRequest.scan q) (TranslationResponse.scan a) =
    refuse (other_inventory q.inventory_id a.inventory_id) translation_inventory_mismatch
      (refuse (not (q.offset == a.offset)) translation_page_mismatch (ok tt))
require_matching_result (TranslationRequest.review q) (TranslationResponse.review a) =
    refuse (not (q.inventory_id == a.inventory_id)) translation_inventory_mismatch (ok tt)
require_matching_result (TranslationRequest.plan q) (TranslationResponse.plan a) =
    refuse (not (q.inventory_id == a.inventory_id)) translation_inventory_mismatch (
      refuse (not (q.offset == a.offset)) translation_page_mismatch
        (refuse (not (q.review_id == a.review_id)) translation_review_mismatch (ok tt)))
require_matching_result (TranslationRequest.apply q) (TranslationResponse.apply a) =
    refuse (not (q.inventory_id == a.inventory_id)) translation_inventory_mismatch (
      refuse (not (q.review_id == a.review_id)) translation_review_mismatch
        (refuse (not (q.approved_plan_id == a.plan_id)) translation_plan_mismatch (ok tt)))
require_matching_result _ _ = err translation_operation_mismatch
