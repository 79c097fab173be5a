-- ===== src/Gateway/Upgrader/RoundTrip.antt =====
-- What is read back from the texts of the upgrade: the length that a response names, the ping that a
-- request names, and the address behind a port.
use fim.Base.{
  ℕ, zero, suc, ◌+◌, ◌/◌, ◌%◌, ◌^◌, ◌<◌, ◌≡◌, refl, sym, ap, ◌∙◌, ◌≢◌, inl, inr, true, false, ◌&&◌,
  Option, none, some, [], ◌∷◌, ◌++◌, arith, ltb, leb, ◌==◌, if◌then◌else◌, Bool-cases, suc-eq-zero,
  length,
}
use fim.Wire.Buffer.{Bytes}
use fim.Wire.Sid.{digits_loop, atoi}
use fim.Wire.Sid.Decimal.{digits_loop-itoa}
use fim.Peer.Client.{ClientConf}
use fim.Base.Decimal.{itoa, itoa_loop}
use fim.Gateway.Upgrader.Text.{
  is_port, all_digits, strip_port, get_ip, write_error_text, content_length, crlf,
}
use fim.Gateway.Upgrader.Parameters.{Fields, Token, Parsed, atoi_ping, ping_conf, after_token}

atoi-digits_loop :
    (s : Bytes) (n : ℕ) → s ≢ [] → digits_loop 0 s ≡ some n → atoi s ≡ some (false, n)
unfolding atoi digits_loop
atoi-digits_loop [] n some_one h = absurd (some_one refl)
atoi-digits_loop (c ∷ cs) n some_one h = ground arith

all_digits-port : (host port : Bytes) → all_digits (host ++ (b':' ∷ port)) ≡ false
unfolding all_digits
all_digits-port [] port = refl
all_digits-port (c ∷ cs) port = ground (arith, all_digits-port cs port)

is_port-short : (c : ℕ) (host port : Bytes) → is_port (c ∷ (host ++ (b':' ∷ port))) ≡ false
unfolding all_digits
is_port-short c [] port = ground arith
is_port-short c (h ∷ hs) port = ground (arith, all_digits-port hs port)

is_port-port : (port : Bytes) → port ≢ [] → all_digits port ≡ true → is_port (b':' ∷ port) ≡ true
is_port-port [] some_one digits = absurd (some_one refl)
is_port-port (d ∷ ds) some_one digits = digits

strip_port-port :
    (host port : Bytes)
    → port ≢ []
    → all_digits port ≡ true
    → strip_port (host ++ (b':' ∷ port)) ≡ host
unfolding strip_port
strip_port-port [] port some_one digits = rw (is_port-port port some_one digits)
strip_port-port (c ∷ cs) port some_one digits =
    rw (is_port-short c cs port) (ap (◌∷◌ c) (strip_port-port cs port some_one digits))

-- The remote address of a host and a port, of which the port is one digit at least: getIP gives the
-- host, whatever bytes it has.
pub get_ip_port :
    (host port : Bytes) → port ≢ [] → all_digits port ≡ true → get_ip (host ++ (b':' ∷ port)) ≡ host
unfolding get_ip
get_ip_port [] port some_one digits =
    rw (suc-eq-zero (length port)) (strip_port-port [] port some_one digits)
get_ip_port (c ∷ cs) port some_one digits =
    rw (suc-eq-zero (length (cs ++ (b':' ∷ port)))) (strip_port-port (c ∷ cs) port some_one digits)

cons-not_nil : (c : ℕ) (cs : Bytes) → c ∷ cs ≢ []
cons-not_nil c cs h = cc

itoa_loop-some : (k n c : ℕ) (out : Bytes) → itoa_loop k n (c ∷ out) ≢ []
unfolding itoa_loop
itoa_loop-some zero n c out h = cc
itoa_loop-some (suc k) n c out h = elim (Bool-cases (ltb n 10)) [
  | inl small ↦ cons-not_nil (b'0' + n) (c ∷ out) (rw small at h)
  | inr big ↦ itoa_loop-some k (n / 10) (b'0' + n % 10) (c ∷ out) (rw big at h)
]

itoa-some : (n : ℕ) → itoa n ≢ []
unfolding itoa itoa_loop
itoa-some n h = elim (Bool-cases (ltb n 10)) [
  | inl small ↦ cons-not_nil (b'0' + n) [] (rw small at h)
  | inr big ↦ itoa_loop-some 19 (n / 10) (b'0' + n % 10) [] (rw big at h)
]

-- strconv.Atoi reads back what strconv.Itoa writes.
atoi-itoa : (n : ℕ) → n < 2 ^ 64 → atoi (itoa n) ≡ some (false, n)
atoi-itoa n h = atoi-digits_loop (itoa n) n (itoa-some n) (digits_loop-itoa n h)

-- The response to a connection over the limit: behind the name of the header stands a number, which
-- reads back as the length of the error's text, and behind the empty line that text.
pub write_error_text-length :
    (body : Bytes)
    → length body < 2 ^ 64
    → (digits : Bytes) × (write_error_text body ≡ content_length ++ digits ++ crlf ++ crlf ++ body)
      × (atoi digits ≡ some (false, length body))
unfolding write_error_text
write_error_text-length body h = (itoa (length body), refl, atoi-itoa (length body) h)

length-some : (b : Bytes) → b ≢ [] → (length b == 0) ≡ false
length-some [] h = absurd (h refl)
length-some (c ∷ cs) h = suc-eq-zero (length cs)

atoi_ping-itoa : (ping : Bytes) (n : ℕ) → ping ≡ itoa n → n < 2 ^ 63 → atoi_ping ping ≡ (false, n)
unfolding atoi_ping
atoi_ping-itoa ping n e h =
    rw (e, atoi-itoa n (omega (arith, h)), atoi_ping) (ap (λ i. (false, i)) (omega arith))

module _ {V : Type 0} where
  abbrev pub conf_of : Option (Parsed V) → Option ClientConf
  conf_of none = none
  conf_of (some p) = p.conf

module _ {V : Type 0} (new_version : Bytes → Option V) (default_size : ℕ) where
  -- The rest of parseParameters behind a token, had parseToken given one: with a device and a ping that
  -- is a number in decimal, it gives a configuration exactly if the number lies from 20 to 120, and the
  -- time that it leaves for a pong is then twice as many seconds and five more.
  pub after_token_ping :
      (t : Token) (r_addr : Bytes) (f : Fields) (n : ℕ)
      → f.device ≢ []
      → f.ping ≡ itoa n
      → n < 2 ^ 63
      → conf_of (after_token new_version default_size (some t) r_addr f)
        ≡ (if leb 20 n && leb n 120 then some (ping_conf default_size n) else none)
  unfolding after_token
  after_token_ping t r_addr f n has_device is_number h =
      rw
        (
          length-some f.device has_device,
          length-some f.ping (λ e. itoa-some n (sym is_number ∙ e)),
          atoi_ping-itoa f.ping n is_number h,
        )
        (ground arith)
