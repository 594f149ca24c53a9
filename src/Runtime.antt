-- ===== src/Runtime.antt =====
-- jobcommand/runtime_api.go and api_errors.go: requests of job commands, their answers, and the
-- allocation that a request is from. A body is what encoding/json makes of it; a table is none where
-- its query fails.
pub mod Access
pub mod Handlers
pub mod Slots
pub mod Guards
pub mod Writable
pub mod Confined
pub mod Isolated
pub mod Readable
pub mod Answers
pub mod Revealed
pub mod Held
mod Tests
use Prim.Native.Char.{code}
use maand.Prelude.{
  ℕ, String, Bool, true, false, not, ◌&&◌, ◌||◌, Option, none, some, List, [], ◌∷◌, ◌++◌, ◌==◌,
  comparable_String, if◌then◌else◌, nat_beq, contains, Map, Result, ok, err, ◌>>=◌,
}
use maand.Text.{concat_text, is_empty, has_prefix}
use maand.Utils.{intersection, unique, none_of}
use maand.Deploy.{Allocation}
use maand.Rollout.{job_catalog_namespace, rollout_order_key}
use maand.Semaphore.{SemaphoreStatus}

pub data Method : Type 0 where
  http_get http_put http_delete http_post other_method : Method

pub data Body {ℓ} (A : Type ℓ) : Type ℓ where
  end_of_file malformed : Body A
  decoded : A → Body A

-- The headers X-ALLOCATION-ID, EVENT and COMMAND are empty where they are missing.
pub record Request {ℓ} (A : Type ℓ) : Type ℓ where
  pub method : Method
  pub allocation_id : String
  pub event : String
  pub command : String
  pub body : Body A

pub record StoreKeyPayload : Type 0 where
  pub namespace : String
  pub key : String
  pub value : String

-- A row of job_commands, with demand_config decoded, or none where it is not JSON.
pub record JobCommandRow : Type 0 where
  pub job : String
  pub name : String
  pub demand_job : Option String
  pub demand_command : Option String
  pub demand_config : Option String

pub record Tx : Type 0 where
  pub allocations : Option (List Allocation)
  pub job_commands : Option (List JobCommandRow)

pub data ApiError : Type 0 where
  invalid_content_type missing_allocation unknown_allocation empty_body invalid_json : ApiError
  missing_key_fields namespace_denied store_key_not_found write_during_health : ApiError
  semaphore_timeout semaphore_conflict internal_error : ApiError

abbrev pub error_status : ApiError → ℕ
error_status invalid_content_type = 415
error_status unknown_allocation = 404
error_status store_key_not_found = 404
error_status semaphore_timeout = 408
error_status semaphore_conflict = 409
error_status internal_error = 500
error_status _ = 400

pub record CommandDemandPayload : Type 0 where
  pub job : String
  pub command : String
  pub demand_config : String

pub record SemaphoreAcquireResponse : Type 0 where
  pub name : String
  pub allocation_id : String
  pub capacity : ℕ
  pub acquired : Bool

pub data Response : Type 0 where
  failed : ApiError → Response
  method_not_allowed done : Response
  value_of : StoreKeyPayload → Response
  keys_of : Map String (List String) → Response
  demands_of : List CommandDemandPayload → Response
  acquired_of : SemaphoreAcquireResponse → Response
  status_of : SemaphoreStatus → Response

abbrev pub status_code : Response → ℕ
status_code (failed e) = error_status e
status_code method_not_allowed = 405
status_code _ = 200

-- `SELECT job, worker_ip FROM allocations WHERE alloc_id = ?`
unfoldable pub find_allocation : String → List Allocation → Option (String × String)
find_allocation alloc_id [] = none
find_allocation alloc_id (a ∷ allocations) =
    let rest = find_allocation alloc_id allocations in
    if a.alloc_id == alloc_id then some (a.job, a.worker_ip) else rest

abbrev pub scanned : Option (String × String) → Result ApiError (String × String)
scanned none = err unknown_allocation
scanned (some found) = ok found

abbrev pub scan_allocation : String → Option (List Allocation) → Result ApiError (String × String)
scan_allocation alloc_id none = err internal_error
scan_allocation alloc_id (some allocations) = scanned (find_allocation alloc_id allocations)

-- resolveAllocationFromRequestWithID: the job and the worker
unfoldable pub resolve_allocation {ℓ} :
    {A : Type ℓ} → Tx → Request A → Result ApiError (String × String)
unfolding find_allocation
resolve_allocation tx r =
    if is_empty r.allocation_id
    then err missing_allocation
    else scan_allocation r.allocation_id tx.allocations

-- The decoding of a body, with writeJSONDecodeError.
abbrev pub decode_body {ℓ} : {A : Type ℓ} → Body A → Result ApiError A
decode_body end_of_file = err empty_body
decode_body malformed = err invalid_json
decode_body (decoded payload) = ok payload

abbrev pub refuse_if : ApiError → Bool → Result ApiError (Unit {0})
refuse_if e refused = if refused then err e else ok tt
