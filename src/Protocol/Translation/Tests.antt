-- ===== src/Protocol/Translation/Tests.antt =====
-- The theorem on the answers at one request.
use cadplot_mcp.Prelude.{◌≡◌, none, [], ◌↔◌}
use cadplot_mcp.Prelude.Classes.{nat_eq}
use cadplot_mcp.Prelude.Results.{ok}
use cadplot_mcp.Protocol.Translation.{
  TranslationRequest, TranslationResponse, require_matching_result,
}
use cadplot_mcp.Protocol.Translation.Answers.{Answers, require_matching_result-Answers}
use cadplot_mcp.Gateway.Repository.{request_key_eq}

abbrev review : TranslationRequest
review =
    TranslationRequest.review
      (record { inventory_id = 11; expected_review_id = none; decisions = [] })

abbrev reviewed : TranslationResponse
reviewed =
    TranslationResponse.review (record { inventory_id = 11; review_id = 12; reviewed_spans = 4 })

require_matching_result-Answers_example :
    (require_matching_result review reviewed ≡ ok tt) ↔ Answers review reviewed
require_matching_result-Answers_example = require_matching_result-Answers review reviewed
