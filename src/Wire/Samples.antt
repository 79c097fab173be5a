-- ===== src/Wire/Samples.antt =====
-- Concrete identifiers and entities, on which the theorems about wire/ are tried out.
use fim.Base.{
  ℕ, ◌≡◌, refl, Option, none, some, [], ◌∷◌, ◌++◌, arith, ℕ_discrete, ◌==◌, if◌then◌else◌, length,
  get_or, replicate,
}
use fim.Wire.Buffer.{Bytes}
use fim.Wire.Ksuid.{Ksuids, KsuidLaws}
use fim.Wire.Protocol.{Kind}
use fim.Wire.Entity.{Entity, Proto, ProtoLaws, KickOut}
use fim.Wire.Entity

-- Identifiers of twenty bytes that are zero up to the last one.
abbrev id_bytes : ℕ → Bytes
id_bytes k = replicate 19 0 ++ (k ∷ [])

abbrev id_from_bytes : Bytes → Option ℕ
id_from_bytes b = if length b == 20 then some (get_or b 19 0) else none

instance abbrev pub small_ids : Ksuids ℕ
small_ids = record {
  size = 20;
  nil = 0;
  bytes = id_bytes;
  from_bytes = id_from_bytes;
  string = id_bytes;
  parse = id_from_bytes;
  same = ℕ_discrete;
}

pub small_ids-KsuidLaws : KsuidLaws small_ids
small_ids-KsuidLaws = record {
  length_bytes = λ k. refl;
  from_bytes-bytes = λ k. refl;
  parse-string = λ k. refl;
}

-- A format in which a kick-out is the identifier that it names, and nothing else has a form.
abbrev marshal_kick : Entity → Option Bytes
marshal_kick (Entity.kick_out k) = some k.peer_id
marshal_kick _ = none

abbrev unmarshal_kick : Kind → Bytes → Option Entity
unmarshal_kick Kind.kick_out b = some (Entity.kick_out (record { peer_id = b }))
unmarshal_kick _ b = none

abbrev pub kick_format : Proto
kick_format = record { marshal = marshal_kick; unmarshal = unmarshal_kick }

unmarshal-marshal_kick :
    (e : Entity) (out : Bytes)
    → marshal_kick e ≡ some out
    → unmarshal_kick (Entity.kind e) out ≡ some e
unmarshal-marshal_kick e out h = ground arith

unmarshal_kick-kind :
    (k : Kind) (b : Bytes) (e : Entity) → unmarshal_kick k b ≡ some e → Entity.kind e ≡ k
unmarshal_kick-kind k b e h = ground arith

pub kick_format-ProtoLaws : ProtoLaws kick_format
kick_format-ProtoLaws = record {
  unmarshal-marshal = unmarshal-marshal_kick;
  unmarshal_kind = unmarshal_kick-kind;
}

-- A kick-out of the client with the identifier 7.
abbrev pub kick_7 : KickOut
kick_7 = record { peer_id = id_bytes 7 }
