-- ===== src/Wire/Text.antt =====
-- wire/message.go: PID.String and Header.String, which the log shows.
pub mod Reading
use fim.Base.{ℕ, ◌+◌, ◌-◌, ◌/◌, ◌%◌, Option, none, some, [], ◌∷◌, ◌++◌}
use Prim.Native.Char.{code}
use Prim.Native.String.{String}
use fim.Base.Decimal.{itoa}
use fim.Wire.Buffer.{Bytes}
use fim.Wire.AckCode
use fim.Wire.Header
use fim.Wire.Protocol.{protocol_name}

-- The bytes of an ASCII text.
abbrev pub codes : String → Bytes
codes String.[] = []
codes (String.◌∷◌ c s) = code c ∷ codes s

-- The name behind the number, if there is one.
abbrev pub name_part : Option String → Bytes
name_part none = []
name_part (some name) = b'_' ∷ codes name

-- `p.String()`
unfoldable pub pid_string : ℕ → Bytes
pid_string p = itoa p ++ name_part (protocol_name p)

-- `h.String()`; the format's %v prints the code of the acknowledgement by its String, which is empty
-- for an unknown code.
unfoldable pub header_string : Bytes → Bytes
header_string h =
    codes "PID:"
    ++ (pid_string (Header.get_pid h)
        ++ (codes ",Seq:"
            ++ (itoa (Header.get_sequence h)
                ++ (codes ",SeqAck:"
                    ++ (itoa (Header.get_sequence_ack h)
                        ++ (codes ",AckCode:"
                            ++ (codes (AckCode.to_string (Header.get_ack_code h))
                                ++ (codes ",Len:" ++ itoa (Header.get_payload_len h)))))))))
