-- ===== src/Rtp/Packets.antt =====
-- RTP packets of rtp.go, with payload and padding, written and read again.
use ristgo.Prelude.{ℕ, zero, suc, ◌+◌, ◌-◌, ◌≤◌, ◌<◌, ◌≡◌, refl, arith, Bool, true, false}
use ristgo.Prelude.{
  ◌++◌, [], ◌∷◌, length, take, drop, ltb, leb, ◌==◌, take-front, drop-front, length-append,
  length-drop, sym, ap, ◌∙◌,
}
use ristgo.Prelude.{Bool-cases, inl, inr}
use mathlib.Core.List.{append-nil, append_assoc}
use ristgo.Prelude.Bytes.{Bytes, byte, replicate, length-replicate}
use ristgo.Prelude.Results.{Result, ok, err}
use ristgo.Rtp.{
  Header, Packet, RtpError, marshal_size, header_bytes, marshal_to, appended, padding_bytes,
  store_payload, packet_marshal_to, packet_marshal_size, packet_append_to, trim_padding, same_flag,
  unmarshal_packet,
}
use ristgo.Rtp.RoundTrip.{
  IsWire, Accepted, marshal_to-ok, unmarshal-header_bytes, length-header_bytes,
}

length-padding_bytes : (k : ℕ) → length (padding_bytes k) ≡ k
length-padding_bytes zero = refl
length-padding_bytes (suc k) =
    let a = length-append (replicate k 0) ((suc k) ∷ []) in
    let b = length-replicate k 0 in omega arith

byte-last : (xs : Bytes) (k : ℕ) → byte (xs ++ (k ∷ [])) (length xs) ≡ k
byte-last [] k = refl
byte-last (x ∷ xs) k = byte-last xs k

-- What a stored packet looks like.
packet_bytes : Packet → Bytes
packet_bytes p = header_bytes p.header ++ (p.payload ++ padding_bytes p.padding_size)

length-packet_bytes : (p : Packet) → length (packet_bytes p) ≡ packet_marshal_size p
unfolding packet_bytes packet_marshal_size
length-packet_bytes p =
    let a = length-append (header_bytes p.header) (p.payload ++ padding_bytes p.padding_size) in
    let b = length-append p.payload (padding_bytes p.padding_size) in
    omega (arith, length-header_bytes p.header, length-padding_bytes p.padding_size)

drop-length : (n : ℕ) (b : Bytes) → length b ≤ n → drop n b ≡ []
drop-length zero [] l = refl
drop-length zero (x ∷ b) l = absurd (omega arith)
drop-length (suc n) [] l = refl
drop-length (suc n) (x ∷ b) l = drop-length n b (omega arith)

store_payload-ok :
    (p : Packet) (rest w : Bytes) (m : ℕ)
    → marshal_size p.header + length rest ≡ packet_marshal_size p
    → appended [] (store_payload p (ok (header_bytes p.header ++ rest, marshal_size p.header)))
      ≡ ok w
    → w ≡ packet_bytes p
unfolding packet_bytes packet_marshal_size
store_payload-ok p rest w m l e =
    let stored = header_bytes p.header ++ rest in
    let size = marshal_size p.header + length p.payload + p.padding_size in
    let head = length-header_bytes p.header in
    let whole = length-append (header_bytes p.header) rest in
    let fits : ltb (length stored) size ≡ false = ground arith in
    let f =
      rw
        (
          fits,
          take-front (marshal_size p.header) (header_bytes p.header) rest head,
          drop-length size stored (omega arith),
          append-nil (padding_bytes p.padding_size),
        )
        at e in
    cc

same_flag-eq : (a b : Bool) → same_flag a b ≡ true → a ≡ b
same_flag-eq true b e = sym e
same_flag-eq false true e = cc
same_flag-eq false false e = refl

stored-ok :
    (p : Packet) (w : Bytes) (q : Result RtpError (Bytes × ℕ))
    → marshal_to p.header (replicate (packet_marshal_size p) 0) ≡ q
    → appended [] (store_payload p q) ≡ ok w
    → Accepted p.header × (w ≡ packet_bytes p)
unfolding packet_marshal_size
stored-ok p w (err e) m f = cc
stored-ok p w (ok r) m f =
    let buf = replicate (packet_marshal_size p) 0 in
    let (accepted, shape) = marshal_to-ok p.header buf r m in
    let sized : marshal_size p.header + length (drop (marshal_size p.header) buf)
        ≡ packet_marshal_size p =
      omega (
        arith,
        length-drop (marshal_size p.header) buf,
        length-replicate (packet_marshal_size p) 0,
      ) in
    (accepted, store_payload-ok p (drop (marshal_size p.header) buf) w 0 sized (rw shape at f))

packet_append_to-ok :
    (p : Packet) (w : Bytes)
    → packet_append_to p [] ≡ ok w
    → Accepted p.header × (w ≡ packet_bytes p) × (p.header.padding ≡ ltb 0 p.padding_size)
unfolding packet_append_to packet_marshal_to
packet_append_to-ok p w e =
    let plain = p.header.padding in
    let padded = ltb 0 p.padding_size in
    elim (Bool-cases (same_flag plain padded)) [
      | inl same ↦
          let f = rw same at e in
          let (accepted, shape) =
            stored-ok p w (marshal_to p.header (replicate (packet_marshal_size p) 0)) refl f in
          (accepted, shape, same_flag-eq plain padded same)
      | inr other ↦ let f = rw other at e in cc
    ]

module _ (h : Header) (payload : Bytes) where
  packet_of : ℕ → Packet
  packet_of k = record { header = h; payload = payload; padding_size = k }

  trim_padding-plain :
      (b : Bytes) (n : ℕ)
      → h.padding ≡ false
      → drop n b ≡ payload
      → trim_padding b (ok (h, n)) ≡ ok (packet_of 0)
  unfolding packet_of
  trim_padding-plain b n flag rest = simp (flag, rest) refl

  trim_padding-padded :
      (b : Bytes) (n k : ℕ)
      → h.padding ≡ true
      → length b ≡ n + length payload + suc k
      → byte b (length b - 1) ≡ suc k
      → take (length payload) (drop n b) ≡ payload
      → trim_padding b (ok (h, n)) ≡ ok (packet_of (suc k))
  unfolding packet_of
  trim_padding-padded b n k flag long last middle =
      let room : leb (length b) n ≡ false = ground arith in
      let some : (suc k == 0) ≡ false = ground arith in
      let fits : ltb (length b - n) (suc k) ≡ false = ground arith in
      let size : length b - suc k - n ≡ length payload = omega arith in
      simp (flag, room, last, some, fits, size, middle) refl

  trim_padding-packet_bytes :
      (k : ℕ)
      → h.padding ≡ ltb 0 k
      → trim_padding (packet_bytes (packet_of k)) (ok (h, marshal_size h)) ≡ ok (packet_of k)
  unfolding packet_bytes packet_of packet_marshal_size
  trim_padding-packet_bytes zero e =
      trim_padding-plain (header_bytes h ++ (payload ++ [])) (marshal_size h) (e ∙ refl) (
        drop-front (marshal_size h) (header_bytes h) (payload ++ []) (length-header_bytes h)
        ∙ append-nil payload)
  trim_padding-packet_bytes (suc k) e =
      let zeros = replicate k 0 in
      let rest = payload ++ (zeros ++ ((suc k) ∷ [])) in
      let b = header_bytes h ++ rest in
      let front = header_bytes h ++ (payload ++ zeros) in
      let shape : b ≡ front ++ ((suc k) ∷ []) =
        ap (λ m. header_bytes h ++ m) (sym (append_assoc payload zeros _))
        ∙ sym (append_assoc (header_bytes h) _ _) in
      let long : length b ≡ marshal_size h + length payload + suc k =
        length-packet_bytes (packet_of (suc k)) in
      let place : length b - 1 ≡ length front =
        omega (arith, length-append front ((suc k) ∷ []), ap length shape) in
      trim_padding-padded b (marshal_size h) k (e ∙ ground arith) long
        (rw place (ap (λ c. byte c (length front)) shape ∙ byte-last front (suc k)))
        (ap (take (length payload))
            (drop-front (marshal_size h) (header_bytes h) rest (length-header_bytes h))
          ∙ take-front (length payload) payload _ refl)

unmarshal_packet-packet_bytes :
    (p : Packet)
    → IsWire p.header
    → Accepted p.header
    → p.header.padding ≡ ltb 0 p.padding_size
    → p.padding_size < 256
    → unmarshal_packet (packet_bytes p) ≡ ok p
unfolding unmarshal_packet packet_bytes packet_of
unmarshal_packet-packet_bytes p w a e l =
    rw (unmarshal-header_bytes p.header (p.payload ++ padding_bytes p.padding_size) w a)
      (trim_padding-packet_bytes p.header p.payload p.padding_size e)

-- A packet that is written is read back whole, header, payload and padding, when the header's
-- fields fit and agree with its flags and the padding's size is below 256.
pub unmarshal_packet-packet_append_to :
    (p : Packet) (written : Bytes)
    → IsWire p.header
    → p.padding_size < 256
    → packet_append_to p [] ≡ ok written
    → unmarshal_packet written ≡ ok p
unmarshal_packet-packet_append_to p written w l e =
    let (a, same, flag) = packet_append_to-ok p written e in
    rw same (unmarshal_packet-packet_bytes p w a flag l)
