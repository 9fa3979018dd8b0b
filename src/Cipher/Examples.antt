-- ===== src/Cipher/Examples.antt =====
-- A toy snow that numbers the messages, and the theorems about the cipher at runs over it.
use frost_tools.Prelude.{
  ℕ, suc, ◌≡◌, ◌≢◌, refl, ap, Bool, true, false, Option, none, some, List, [], ◌∷◌, arith, nat_eq,
  ◌==◌, get, insert, list_beq, contains, is_panic, Outcome, ok, err, if◌then◌else◌,
}
use frost_tools.Api.{PublicKey, public_key_eq, public_key_beq, Msg, Bytes}
use frost_tools.Cipher.Snow.{Snow, IsRegular, Channels}
use frost_tools.Cipher.Noise
use frost_tools.Cipher.Peers.{
  Cipher, new, add_peers, encrypt, decrypt, unknown_recipient, unknown_sender,
}
use frost_tools.Cipher.Validity.{IsValid}
use frost_tools.Cipher.Use.{new_peers, encrypt_lem, decrypt_lem}
use frost_tools.Cipher.Conversation.{conversation, encrypt_all, decrypt_all, sent_by}

-- A message is its number and its payload.
abbrev unnumber : ℕ → Bytes → Outcome ℕ Bytes
unnumber t [] = err 0
unnumber t (x ∷ b) = if x == t then ok b else err x

abbrev transport_of : Bool → Outcome ℕ ℕ
transport_of true = ok 1
transport_of false = err 0

abbrev pub toy : Snow
toy = record {
  HandshakeState = Bool;
  TransportState = ℕ;
  SnowError = ℕ;
  generate_keypair = ok (1 ∷ [], 2 ∷ []);
  build_initiator = λ private_key remote. ok false;
  build_responder = λ private_key remote. ok false;
  write_handshake = λ size payload h. (ok (0 ∷ payload), true);
  read_handshake = λ size message h. (unnumber 0 message, true);
  is_handshake_finished = λ h. h;
  into_transport_mode = transport_of;
  write_transport = λ size payload t. (ok (t ∷ payload), suc t);
  read_transport = λ size message t. (unnumber t message, suc t);
}

unnumber-returns : (t : ℕ) (b : Bytes) → is_panic (unnumber t b) ≡ false
unnumber-returns t [] = refl
unnumber-returns t (x ∷ b) = ground arith

toy_regular : IsRegular toy
toy_regular = record {
  finishes = λ h done. (1, ap transport_of done);
  write_handshake_returns = λ n b h. refl;
  read_handshake_returns = λ n b h. unnumber-returns 0 b;
  write_transport_returns = λ n b t. refl;
  read_transport_returns = λ n b t. unnumber-returns t b;
}

unnumber_same :
    (t u : ℕ) (b : Bytes)
    → t ≡ u
    → ◌≡◌ {A = Outcome ℕ Bytes × ℕ} (unnumber u (t ∷ b), suc u) (ok b, suc u)
unnumber_same t u b e = ground (arith, e)

abbrev toy_channels : Channels toy
toy_channels = record {
  overhead = 1;
  Fresh = λ h k. Unit;
  Open = λ t u. t ≡ u;
  IsPair = λ private_key public_key. Unit;
  fresh = λ a_private a_public b_private b_public h k pa pb i r. tt;
  first = λ h k payload f fits. (
    true,
    true,
    0 ∷ payload,
    1,
    1,
    record { written = refl; received = refl },
    refl,
    refl,
    refl,
    refl,
    refl,
  );
  later = λ t u payload o fits. (
    suc t,
    suc u,
    t ∷ payload,
    record { written = refl; received = unnumber_same t u payload o },
    ap suc o,
  );
}

abbrev pub key : ℕ → PublicKey
key n = record { bytes = n ∷ [] }

abbrev pub cipher : ℕ → Cipher toy
cipher n = record {
  send_noise_map = (key n, Noise.new toy false) ∷ [];
  recv_noise_map = (key n, Noise.new toy false) ∷ [];
}

conversation_example :
    (cs : List Bytes) × (a : Cipher toy) × (b : Cipher toy) × (encrypt_all toy
        (key 8)
        ((5 ∷ []) ∷ (6 ∷ []) ∷ [])
        (cipher 8)
      ≡ (ok cs, a))
    × (decrypt_all toy (key 7) cs (cipher 7)
        ≡ (ok (sent_by toy (key 7) ((5 ∷ []) ∷ (6 ∷ []) ∷ [])), b))
unfolding new add_peers insert contains public_key_beq list_beq
conversation_example =
    conversation toy toy_channels (1 ∷ []) (2 ∷ []) (key 7) (key 8) (key 8 ∷ []) (key 7 ∷ [])
      (cipher 8) (cipher 7) ((5 ∷ []) ∷ (6 ∷ []) ∷ []) tt tt refl refl refl refl
      (omega arith, (omega arith, tt))

cipher-IsValid : IsValid toy (cipher 8)
unfolding new add_peers insert
cipher-IsValid = (new_peers toy (1 ∷ []) (key 8 ∷ []) (cipher 8) refl).0

encrypt_lem_example :
    let (r, c') = encrypt toy (some (key 8)) (5 ∷ []) (cipher 8) in
    IsValid toy c'
    × (is_panic r ≡ false)
    × (c'.recv_noise_map ≡ (cipher 8).recv_noise_map)
    × ((p : PublicKey)
        → ◌≡◌ {A = Option PublicKey} (some (key 8)) (some p)
        → (get (cipher 8).send_noise_map p ≡ none → (r ≡ err unknown_recipient) × (c' ≡ cipher 8))
          × ((q : PublicKey) → q ≢ p → get c'.send_noise_map q ≡ get (cipher 8).send_noise_map q))
encrypt_lem_example = encrypt_lem toy toy_regular (some (key 8)) (5 ∷ []) (cipher 8) cipher-IsValid

abbrev received : Msg
received = record { sender = key 8; msg = 0 ∷ 5 ∷ [] }

decrypt_lem_example :
    let (r, c') = decrypt toy received (cipher 8) in
    IsValid toy c'
    × (is_panic r ≡ false)
    × (c'.send_noise_map ≡ (cipher 8).send_noise_map)
    × (get (cipher 8).recv_noise_map (key 8) ≡ none → (r ≡ err unknown_sender) × (c' ≡ cipher 8))
    × ((q : PublicKey) → q ≢ key 8 → get c'.recv_noise_map q ≡ get (cipher 8).recv_noise_map q)
    × ((m : Msg) → r ≡ ok m → m.sender ≡ key 8)
decrypt_lem_example = decrypt_lem toy toy_regular received (cipher 8) cipher-IsValid
