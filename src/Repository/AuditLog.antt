-- ===== src/Repository/AuditLog.antt =====
-- `logAudit` of `InMemoryRepository` (apps/web/server/db/memory.ts) and the data of the audit log
-- (db/repository.ts). The metadata are carried as the text of their JSON.
use wtfoc.Prelude.{ℕ, String, Option, List, [], ◌∷◌, ◌++◌}

pub data AuditOperation : Type 0 where
  delegated used_upload used_on_chain revoked expired rotated : AuditOperation

pub record AuditLogEntry : Type 0 where
  pub id : String
  pub wallet_address : String
  pub operation : AuditOperation
  pub collection_id : Option String
  pub metadata : Option String
  pub created_at : ℕ

-- A missing collection or missing metadata is `null`, as both are none.
abbrev pub log_audit :
    ℕ
    → String
    → String
    → AuditOperation
    → Option String
    → Option String
    → List AuditLogEntry
    → List AuditLogEntry
log_audit now uuid wallet_address operation collection_id metadata log =
    log
    ++ record {
      id = uuid;
      wallet_address = wallet_address;
      operation = operation;
      collection_id = collection_id;
      metadata = metadata;
      created_at = now;
    }
      ∷ []
