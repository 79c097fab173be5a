-- ===== src/Gateway/Upgrader/Text.antt =====
-- gateway/wss/upgrader.go: the texts that the upgrade of a connection reads and writes: the address
-- without its port, the names of headers, and the response to a connection over the limit.
use fim.Base.{ℕ, Bool, true, false, ◌&&◌, ◌||◌, [], ◌∷◌, ◌++◌, leb, ◌==◌, if◌then◌else◌, length}
use fim.Base.Decimal.{itoa}
use fim.Wire.Buffer.{Bytes}

abbrev pub crlf : Bytes
crlf = 13 ∷ 10 ∷ []

abbrev pub http_version : Bytes
http_version = b'H' ∷ b'T' ∷ b'T' ∷ b'P' ∷ b'/' ∷ b'1' ∷ b'.' ∷ b'1' ∷ b' ' ∷ []

abbrev pub content_type : Bytes
content_type =
    b'C' ∷ b'o' ∷ b'n' ∷ b't' ∷ b'e' ∷ b'n' ∷ b't' ∷ b'-' ∷ b'T' ∷ b'y' ∷ b'p' ∷ b'e' ∷ b':' ∷ b' '
    ∷ b't' ∷ b'e' ∷ b'x' ∷ b't' ∷ b'/' ∷ b'p' ∷ b'l' ∷ b'a' ∷ b'i' ∷ b'n' ∷ b';' ∷ b' ' ∷ b'c'
    ∷ b'h' ∷ b'a' ∷ b'r' ∷ b's' ∷ b'e' ∷ b't' ∷ b'=' ∷ b'u' ∷ b't' ∷ b'f' ∷ b'-' ∷ b'8' ∷ []

abbrev pub content_length : Bytes
content_length =
    b'C' ∷ b'o' ∷ b'n' ∷ b't' ∷ b'e' ∷ b'n' ∷ b't' ∷ b'-' ∷ b'L' ∷ b'e' ∷ b'n' ∷ b'g' ∷ b't' ∷ b'h'
    ∷ b':' ∷ b' ' ∷ []

abbrev pub service_unavailable_text : Bytes
service_unavailable_text =
    b'S' ∷ b'e' ∷ b'r' ∷ b'v' ∷ b'i' ∷ b'c' ∷ b'e' ∷ b' ' ∷ b'U' ∷ b'n' ∷ b'a' ∷ b'v' ∷ b'a' ∷ b'i'
    ∷ b'l' ∷ b'a' ∷ b'b' ∷ b'l' ∷ b'e' ∷ []

abbrev pub over_max_clients : Bytes
over_max_clients =
    b'o' ∷ b'v' ∷ b'e' ∷ b'r' ∷ b' ' ∷ b'm' ∷ b'a' ∷ b'x' ∷ b' ' ∷ b'c' ∷ b'l' ∷ b'i' ∷ b'e' ∷ b'n'
    ∷ b't' ∷ b's' ∷ []

abbrev pub x_real_ip : Bytes
x_real_ip = b'X' ∷ b'-' ∷ b'R' ∷ b'e' ∷ b'a' ∷ b'l' ∷ b'-' ∷ b'I' ∷ b'P' ∷ []

abbrev pub x_forwarded_for : Bytes
x_forwarded_for =
    b'X' ∷ b'-' ∷ b'F' ∷ b'o' ∷ b'r' ∷ b'w' ∷ b'a' ∷ b'r' ∷ b'd' ∷ b'e' ∷ b'd' ∷ b'-' ∷ b'F' ∷ b'o'
    ∷ b'r' ∷ []

unfoldable pub same_bytes : Bytes → Bytes → Bool
same_bytes [] [] = true
same_bytes [] (d ∷ ds) = false
same_bytes (c ∷ cs) [] = false
same_bytes (c ∷ cs) (d ∷ ds) = (c == d) && same_bytes cs ds

-- IsAddr: the keys of ngAddr, in this spelling only.
unfoldable pub is_addr : Bytes → Bool
unfolding same_bytes
is_addr key = same_bytes key x_real_ip || same_bytes key x_forwarded_for

abbrev pub is_digit : ℕ → Bool
is_digit c = leb b'0' c && leb c b'9'

unfoldable pub all_digits : Bytes → Bool
all_digits [] = true
all_digits (c ∷ cs) = is_digit c && all_digits cs

-- The pattern `\:[0-9]+$` at this place of the text.
abbrev pub is_port : Bytes → Bool
is_port [] = false
is_port (c ∷ []) = false
is_port (c ∷ d ∷ ds) = (c == b':') && all_digits (d ∷ ds)

-- What ReplaceAllString leaves of the text when the leftmost match of the pattern, which reaches to
-- the end, is replaced by nothing.
unfoldable pub strip_port : Bytes → Bytes
unfolding all_digits
strip_port [] = []
strip_port (c ∷ cs) = let rest = strip_port cs in if is_port (c ∷ cs) then [] else c ∷ rest

-- getIP
unfoldable pub get_ip : Bytes → Bytes
unfolding strip_port
get_ip remote_addr = if length remote_addr == 0 then [] else strip_port remote_addr

-- writeStatusText, with the text that http.StatusText gives for the code.
unfoldable pub write_status_text : ℕ → Bytes → Bytes
unfolding itoa
write_status_text code status_text =
    http_version ++ itoa code ++ (b' ' ∷ []) ++ status_text ++ crlf ++ content_type ++ crlf

-- writeErrorText, with the error's text.
unfoldable pub write_error_text : Bytes → Bytes
unfolding itoa
write_error_text body = content_length ++ itoa (length body) ++ crlf ++ crlf ++ body
