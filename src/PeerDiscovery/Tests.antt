-- ===== src/PeerDiscovery/Tests.antt =====
-- Runs of the HELLO codec, and its theorem at a concrete message.
use rmw_axon.Prelude.{◌≡◌, refl, none, some, [], ◌∷◌, arith, take}
use rmw_axon.Prelude.Results.{ok, err}
use rmw_axon.Prelude.Bytes.{from_le_bytes, is_utf8}
use rmw_axon.PeerDiscovery.{
  classic, qkd, HelloDaemon, trailing_data, bad_security_mode, truncated, encode_domains,
  encode_base, encode_sae, encode_hello_daemon, from_wire, read_domains, read_mode, read_sae,
  decode_hello_daemon,
}
use rmw_axon.PeerDiscovery.Hello.{IsHello, decode_hello_daemon-encode_hello_daemon}

abbrev hello : HelloDaemon
hello = record {
  daemon_id = 0x1234567890;
  quic_port = 7411;
  domains = 0 ∷ 42 ∷ [];
  generation = 3;
  qkd_sae_id = some (0x61 ∷ 0x62 ∷ []);
  security_mode = qkd;
}

bad_hellos :
    (decode_hello_daemon (encode_base hello (encode_sae none (2 ∷ []))) ≡ err bad_security_mode)
    × (decode_hello_daemon (encode_base hello (encode_sae none (1 ∷ 1 ∷ []))) ≡ err trailing_data)
    × (decode_hello_daemon (take 25 (encode_hello_daemon hello)) ≡ err truncated)
unfolding decode_hello_daemon encode_base encode_sae encode_domains encode_hello_daemon read_domains
    read_mode read_sae from_wire from_le_bytes is_utf8
bad_hellos = (refl, refl, refl)

hello-IsHello : IsHello hello
unfolding is_utf8
hello-IsHello = record {
  id = omega arith;
  port = omega arith;
  generation = omega arith;
  few_domains = omega arith;
  domains = (omega arith, (omega arith, tt));
  sae = (omega arith, omega arith, refl);
}

decode_hello_daemon-encode_hello_daemon_example :
    (decode_hello_daemon (encode_hello_daemon hello) ≡ ok hello)
    × (decode_hello_daemon (encode_base hello (encode_sae hello.qkd_sae_id []))
        ≡ ok (record hello { security_mode = classic }))
    × (decode_hello_daemon (encode_base hello [])
        ≡ ok (record hello { qkd_sae_id = none; security_mode = classic }))
decode_hello_daemon-encode_hello_daemon_example =
    decode_hello_daemon-encode_hello_daemon hello hello-IsHello
