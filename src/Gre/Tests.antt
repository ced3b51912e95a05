-- ===== src/Gre/Tests.antt =====
-- A keyed header and a keep-alive body, and the theorems at them.
use ristgo.Prelude.{◌≡◌, refl, true, false, [], ◌∷◌}
use ristgo.Prelude.Bytes.{Bytes}
use ristgo.Prelude.Results.{ok}
use ristgo.Gre.{Header}
use ristgo.Gre.Keepalive.{
  Keepalive, AdvExtCaps, standard_capabilities, append_keepalive, parse_keepalive,
}
use ristgo.Gre.Keepalive.RoundTrip.{parse-append_keepalive}

abbrev keyed : Header
keyed = record {
  version = 2;
  has_key = true;
  has_seq = true;
  key_size256 = true;
  nonce = 7;
  seq = 258;
  prot_type = 0x88B6;
}

abbrev keyed_bytes : Bytes
keyed_bytes = 48 ∷ 80 ∷ 136 ∷ 182 ∷ 0 ∷ 0 ∷ 0 ∷ 7 ∷ 0 ∷ 0 ∷ 1 ∷ 2 ∷ []

abbrev extension : AdvExtCaps
extension = record { i = true; g = false; c = true }

abbrev body : Keepalive
body = record {
  mac = 1 ∷ 2 ∷ 3 ∷ 4 ∷ 5 ∷ 6 ∷ [];
  caps = standard_capabilities;
  has_adv_ext = true;
  adv_ext = extension;
  json = 123 ∷ 125 ∷ [];
}

parse-append_keepalive_example : parse_keepalive (append_keepalive body []) ≡ ok body
parse-append_keepalive_example =
    parse-append_keepalive (1 ∷ 2 ∷ 3 ∷ 4 ∷ 5 ∷ 6 ∷ []) (123 ∷ 125 ∷ []) standard_capabilities true
      extension refl refl
