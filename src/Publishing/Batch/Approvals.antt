-- ===== src/Publishing/Batch/Approvals.antt =====
-- The approvals that a batch takes: `_validate_approvals`, `_validate_queue_approvals` and
-- `_validate_status_plan_ids` of src/cadplot_mcp/batch.py.
pub mod Valid
use Prim.Native.Char.{Char}
use cadplot_mcp.Prelude.{
  Bool, true, false, ◌&&◌, ◌||◌, not, Option, none, some, List, [], ◌∷◌, map, String, leb, ltb, all,
  length, if◌then◌else◌,
}
use cadplot_mcp.Prelude.Classes.{string_eq, contains, is_distinct}
use cadplot_mcp.Prelude.Dicts.{Dict, lookup}
use cadplot_mcp.Prelude.Results.{Result, ok, err, refuse}
use cadplot_mcp.Publishing.Value.{
  Value, text, list, dict, as_dict, as_list, as_text, is_identifier, is_digest,
}
use cadplot_mcp.Publishing.Runtime.{Runtime, Exception, value_error}

pub record Approval : Type 0 where
  pub path : String
  pub plan_id : String

pub record QueueApproval : Type 0 where
  pub manifest_path : String
  pub plan_id : String
  pub manifest_sha256 : String

abbrev keys : {V : Type 0} → Dict String V → List String
keys [] = []
keys ((k, v) ∷ d) = k ∷ keys d

-- `set(item) == required`
unfoldable pub has_keys : {V : Type 0} → List String → Dict String V → Bool
unfolding contains all
has_keys required d =
    all (λ k. contains k required) (keys d) && all (λ k. contains k (keys d)) required

-- A list of rows read one after the other; the first refusal ends it.
unfoldable pub read_all :
    {A B : Type 0} → (A → Result Exception B) → List A → Result Exception (List B)
read_all f [] = ok []
read_all f (x ∷ xs) = elim (f x) [
  | err e ↦ err e
  | ok y ↦ elim (read_all f xs) [ err e ↦ err e | ok ys ↦ ok (y ∷ ys) ]
]

-- `isinstance(approvals, list) and 1 <= len(approvals) <= 20`
unfoldable pub in_batch : {A : Type 0} → Option (List A) → Option (List A)
in_batch none = none
in_batch (some rows) = if leb 1 (length rows) && leb (length rows) 20 then some rows else none

unfoldable pub text_at : {Real : Type 0} → String → Dict String (Value Real) → Option String
unfolding as_text lookup
text_at k d = as_text (lookup k d)

-- The text, if it passes the test.
unfoldable pub text_if : (String → Bool) → Option String → Option String
text_if p none = none
text_if p (some s) = if p s then some s else none

module _ (R : Runtime) where
  open R use {Real, casefold, resolve, is_space}

  -- `not path.strip()`
  unfoldable pub is_blank : String → Bool
  is_blank String.[] = true
  is_blank (String.◌∷◌ c s) = is_space c && is_blank s

  unfoldable pub path_key : String → String
  path_key path = casefold (resolve path)

  unfoldable pub read_approval : Value Real → Result Exception Approval
  unfolding as_dict has_keys text_at text_if is_blank is_identifier
  read_approval item = elim (as_dict (some item)) [
    | none ↦ err (value_error "Each approval must contain exactly path and plan_id.")
    | some d ↦
        refuse (not (has_keys ("path" ∷ "plan_id" ∷ []) d))
          (value_error "Each approval must contain exactly path and plan_id.")
          (elim (text_if (λ s. not (is_blank s)) (text_at "path" d)) [
            | none ↦ err (value_error "Approval path must be a non-empty string.")
            | some path ↦ elim (text_if is_identifier (text_at "plan_id" d)) [
              | none ↦ err (value_error "Approval plan_id must be a SHA-256 identifier.")
              | some plan_id ↦ ok (record { path = path; plan_id = plan_id })
            ]
          ])
  ]

  unfoldable pub validate_approvals : Value Real → Result Exception (List Approval)
  unfolding as_list in_batch read_all read_approval is_distinct path_key
  validate_approvals approvals = elim (in_batch (as_list (some approvals))) [
    | none ↦ err (value_error "approvals must contain between 1 and 20 items.")
    | some rows ↦ elim (read_all read_approval rows) [
      | err e ↦ err e
      | ok normalized ↦
          refuse (not (is_distinct (map (λ (a : Approval). path_key a.path) normalized)))
            (value_error "Approval paths must be unique within a batch.")
            (refuse (not (is_distinct (map (λ (a : Approval). a.plan_id) normalized)))
              (value_error "Approval plan_ids must be unique within a batch.") (ok normalized))
    ]
  ]

  unfoldable pub read_queue_approval : Value Real → Result Exception QueueApproval
  unfolding as_dict has_keys text_at text_if is_blank is_identifier is_digest
  read_queue_approval item = elim (as_dict (some item)) [
    | none ↦ err (
        value_error
          "Each queue approval must contain exactly manifest_path, plan_id, and manifest_sha256.")
    | some d ↦
        refuse (not (has_keys ("manifest_path" ∷ "plan_id" ∷ "manifest_sha256" ∷ []) d))
          (value_error
            "Each queue approval must contain exactly manifest_path, plan_id, and manifest_sha256.")
          (elim (text_if (λ s. not (is_blank s)) (text_at "manifest_path" d)) [
            | none ↦ err (value_error "Queue approval manifest_path must be a non-empty string.")
            | some path ↦ elim (text_if is_identifier (text_at "plan_id" d)) [
              | none ↦ err (value_error "Queue approval plan_id must be a SHA-256 identifier.")
              | some plan_id ↦ elim (text_if is_digest (text_at "manifest_sha256" d)) [
                | none ↦
                    err (value_error "Queue approval manifest_sha256 must be a SHA-256 digest.")
                | some digest ↦
                    ok
                      (record { manifest_path = path; plan_id = plan_id; manifest_sha256 = digest })
              ]
            ]
          ])
  ]

  unfoldable pub validate_queue_approvals : Value Real → Result Exception (List QueueApproval)
  unfolding as_list in_batch read_all read_queue_approval is_distinct path_key
  validate_queue_approvals approvals = elim (in_batch (as_list (some approvals))) [
    | none ↦ err (value_error "approvals must contain between 1 and 20 items.")
    | some rows ↦ elim (read_all read_queue_approval rows) [
      | err e ↦ err e
      | ok normalized ↦
          refuse
            (not (is_distinct (map (λ (a : QueueApproval). path_key a.manifest_path) normalized)))
            (value_error "Queue manifest paths must be unique within a batch.")
            (refuse (not (is_distinct (map (λ (a : QueueApproval). a.plan_id) normalized)))
              (value_error "Queue plan_ids must be unique within a batch.")
              (refuse
                (not (is_distinct (map (λ (a : QueueApproval). a.manifest_sha256) normalized)))
                (value_error "Queue manifest digests must be unique within a batch.")
                (ok normalized)))
    ]
  ]

  -- `isinstance(plan_id, str) and re.fullmatch(...)`
  unfoldable pub read_plan_id : Value Real → Result Exception String
  unfolding text_if as_text is_identifier
  read_plan_id item = elim (text_if is_identifier (as_text (some item))) [
    | none ↦ err (value_error "Each plan_id must be a SHA-256 identifier.")
    | some plan_id ↦ ok plan_id
  ]

  unfoldable pub validate_status_plan_ids : Value Real → Result Exception (List String)
  unfolding as_list in_batch read_all read_plan_id is_distinct
  validate_status_plan_ids plan_ids = elim (in_batch (as_list (some plan_ids))) [
    | none ↦ err (value_error "plan_ids must contain between 1 and 20 items.")
    | some rows ↦ elim (read_all read_plan_id rows) [
      | err e ↦ err e
      | ok normalized ↦
          refuse (not (is_distinct normalized))
            (value_error "plan_ids must be unique within a batch.") (ok normalized)
    ]
  ]

  unfoldable pub approval_value : Approval → Value Real
  approval_value a = dict (("path", text a.path) ∷ ("plan_id", text a.plan_id) ∷ [])

  unfoldable pub queue_approval_fields : QueueApproval → Dict String (Value Real)
  queue_approval_fields a =
      ("manifest_path", text a.manifest_path)
      ∷ ("plan_id", text a.plan_id)
      ∷ ("manifest_sha256", text a.manifest_sha256)
      ∷ []
