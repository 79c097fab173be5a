-- ===== src/Wire/Entity.antt =====
-- wire/entity.pb.go and wire/common.pb.go: the messages that the payloads carry, without the
-- bookkeeping fields of the protobuf runtime. A Go string is its bytes; an int32 or int64 is its
-- two's complement bit pattern.
use fim.Base.{ℕ, List, Bool, Option, some, ◌≡◌}
use fim.Wire.Buffer.{Bytes}
use fim.Wire.Protocol.{Kind}

pub record Payload : Type 0 where
  pub msg_type : ℕ
  pub content : Bytes
  pub extra : Bytes

pub record ChatReq : Type 0 where
  pub to : Bytes
  pub not_store : Bool
  pub payload : Option Payload

pub record ChatAck : Type 0 where
  pub msg_id : ℕ
  pub send_time : ℕ

pub record ChatPush : Type 0 where
  pub msg_id : ℕ
  pub from : Bytes
  pub to : Bytes
  pub send_time : ℕ
  pub payload : Option Payload
  pub chat_type : ℕ

pub record ChatPushAck : Type 0 where
  pub msg_ids : List ℕ

pub record ChatSync : Type 0 where
  pub msg_id : ℕ
  pub chat_type : ℕ
  pub to : Bytes
  pub device : ℕ
  pub send_time : ℕ
  pub payload : Option Payload

pub record LoginReq : Type 0 where
  pub gateway_id : Bytes
  pub peer_id : Bytes
  pub app_key : Bytes
  pub username : Bytes
  pub device : ℕ
  pub remote_ip : Bytes

pub record LoginAck : Type 0 where
  pub peer_id : Bytes
  pub user_uid : Bytes

pub record KickOut : Type 0 where
  pub peer_id : Bytes

pub record LogoutReq : Type 0 where
  pub peer_id : Bytes

-- A proto.Message of one of the types that the code reads and writes.
pub data Entity : Type 0 where
  login_req : LoginReq → Entity
  login_ack : LoginAck → Entity
  kick_out : KickOut → Entity
  logout_req : LogoutReq → Entity
  chat_req : ChatReq → Entity
  chat_ack : ChatAck → Entity
  chat_push : ChatPush → Entity
  chat_push_ack : ChatPushAck → Entity
  chat_sync : ChatSync → Entity

abbrev pub kind : Entity → Kind
kind (login_req m) = Kind.login_req
kind (login_ack m) = Kind.login_ack
kind (kick_out m) = Kind.kick_out
kind (logout_req m) = Kind.logout_req
kind (chat_req m) = Kind.chat_req
kind (chat_ack m) = Kind.chat_ack
kind (chat_push m) = Kind.chat_push
kind (chat_push_ack m) = Kind.chat_push_ack
kind (chat_sync m) = Kind.chat_sync

-- The package github.com/golang/protobuf/proto, which is not part of the repository: Marshal, and
-- Unmarshal into an empty message of a type. `none` is an error.
pub record Proto : Type 0 where
  pub marshal : Entity → Option Bytes
  pub unmarshal : Kind → Bytes → Option Entity

-- Unmarshal fills the message with what Marshal was given, and keeps its type.
pub record ProtoLaws (p : Proto) : Type 0 where
  pub unmarshal-marshal :
      (e : Entity) (out : Bytes) → p.marshal e ≡ some out → p.unmarshal (kind e) out ≡ some e
  pub unmarshal_kind : (k : Kind) (b : Bytes) (e : Entity) → p.unmarshal k b ≡ some e → kind e ≡ k
