-- ===== src/Client/NetworkValidation/Values.antt =====
-- `SystemMessageValue` of packages/client/src/utils/SystemMessageObservable.ts.
use logstore_archive.Protocol.Message.{MessageMetadata}

pub record SystemMessageValue (T : Type 0) : Type 0 where
  pub content : T
  pub metadata : MessageMetadata
