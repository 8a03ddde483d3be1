-- ===== src/Models/Block.antt =====
-- src/models/block.rs and the signed transactions of src/models/transaction.rs.
use akula.Prelude.{ℕ, Bool, List}
use akula.Models.Header.{BlockHeader}
use akula.Models.Message.{Message, MessageWithSender}

pub record MessageSignature : Type 0 where
  pub odd_y_parity : Bool
  pub r : ℕ
  pub s : ℕ

pub record MessageWithSignature : Type 0 where
  pub message : Message
  pub signature : MessageSignature

pub record Block : Type 0 where
  pub header : BlockHeader
  pub transactions : List MessageWithSignature
  pub ommers : List BlockHeader

pub record BlockBody : Type 0 where
  pub transactions : List MessageWithSignature
  pub ommers : List BlockHeader

pub record BlockBodyWithSenders : Type 0 where
  pub transactions : List MessageWithSender
  pub ommers : List BlockHeader
