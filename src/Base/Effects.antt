-- ===== src/Base/Effects.antt =====
-- The rows that handlers write beside their own tables.
use Prim.Native.String.{String}
use mathlib.Core.Bool.{Bool}

-- `UserNotification`
pub record UserNotification : Type 0 where
  pub identity : String
  pub title : String
  pub message : String
  pub mandatory : Bool
  pub resource_type : String
  pub resource_id : String

-- What `AuditService.record` is called with, the details left out.
pub record AuditEntry : Type 0 where
  pub actor : String
  pub action : String
  pub resource : String
  pub result : String
