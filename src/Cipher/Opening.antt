-- ===== src/Cipher/Opening.antt =====
-- The channels that a new cipher opens.
use mathlib.Core.Path.{subst}
use frost_tools.Prelude.{
  ◌≡◌, ◌∙◌, refl, inl, inr, true, false, some, arith, ok, Outcome, List, [], ◌∷◌, get, insert,
  get-insert, contains, Bool-cases, bind-eq-ok, eq_iff, eq_self, ap,
}
use frost_tools.Api.{Bytes, PublicKey, public_key_eq}
use frost_tools.Cipher.Snow.{Snow}
use frost_tools.Cipher.Noise
use frost_tools.Cipher.Noise.{Noise}
use frost_tools.Cipher.Peers.{Cipher, CipherError, new, add_peers, from_snow}

module _ (S : Snow) where
  -- The channels of `c` to and from `p` are new, built from the private key and `p`.
  pub record IsNew (key : Bytes) (p : PublicKey) (c : Cipher S) : Type 0 where
    pub initiator : S.HandshakeState
    pub responder : S.HandshakeState
    pub initiates : S.build_initiator key p.bytes ≡ ok initiator
    pub responds : S.build_responder key p.bytes ≡ ok responder
    pub sends : get c.send_noise_map p ≡ some (Noise.new S initiator)
    pub receives : get c.recv_noise_map p ≡ some (Noise.new S responder)

  from_snow-eq-ok :
      {A : Type 0} (r : Outcome S.SnowError A) (a : A) → from_snow S r ≡ ok a → r ≡ ok a
  from_snow-eq-ok (ok b) a e = ground arith
  from_snow-eq-ok (Outcome.err x) a e = cc
  from_snow-eq-ok Outcome.panic a e = cc

  record Opens (key : Bytes) (ps : List PublicKey) (before c : Cipher S) : Type 0 where
    added : (p : PublicKey) → contains ps p ≡ true → IsNew key p c
    kept_send :
        (p : PublicKey)
        → contains ps p ≡ false
        → get c.send_noise_map p ≡ get before.send_noise_map p
    kept_receive :
        (p : PublicKey)
        → contains ps p ≡ false
        → get c.recv_noise_map p ≡ get before.recv_noise_map p

  add_peers-Opens :
      (key : Bytes) (ps : List PublicKey) (before c : Cipher S)
      → add_peers S key ps before ≡ ok c
      → Opens key ps before c
  unfolding add_peers contains
  add_peers-Opens key [] before c e = subst (Opens key [] before) (same_cipher before c e) (record {
    added = λ p h. absurd (ground arith);
    kept_send = λ p h. refl;
    kept_receive = λ p h. refl;
  })
    where
      same_cipher :
          (b d : Cipher S) → ◌≡◌ {A = Outcome (CipherError S) (Cipher S)} (ok b) (ok d) → b ≡ d
      same_cipher b d q = cc
  add_peers-Opens key (p ∷ ps) before c e =
      let (h, eh, e1) = bind-eq-ok (from_snow S (S.build_initiator key p.bytes)) _ e in
      let (k, ek, e2) = bind-eq-ok (from_snow S (S.build_responder key p.bytes)) _ e1 in
      let rest =
        add_peers-Opens key ps
          (record {
            send_noise_map = insert p (Noise.new S h) before.send_noise_map;
            recv_noise_map = insert p (Noise.new S k) before.recv_noise_map;
          })
          c e2 in
      record {
        added = λ q there. elim (Bool-cases (contains ps q)) [
          | inl later ↦ rest.added q later
          | inr last ↦
              let same = (eq_iff p q).0 (ground arith) in
              subst (λ x. IsNew key x c) same
                (record {
                  initiator = h;
                  responder = k;
                  initiates = from_snow-eq-ok (S.build_initiator key p.bytes) h eh;
                  responds = from_snow-eq-ok (S.build_responder key p.bytes) k ek;
                  sends =
                      rest.kept_send p (ap (contains ps) same ∙ last)
                      ∙ ground
                          (arith, get-insert p p (Noise.new S h) before.send_noise_map, eq_self p);
                  receives =
                      rest.kept_receive p (ap (contains ps) same ∙ last)
                      ∙ ground
                          (arith, get-insert p p (Noise.new S k) before.recv_noise_map, eq_self p);
                })
        ];
        kept_send = λ q gone.
            ground (arith, rest.kept_send q, get-insert p q (Noise.new S h) before.send_noise_map);
        kept_receive = λ q gone.
            ground
              (arith, rest.kept_receive q, get-insert p q (Noise.new S k) before.recv_noise_map);
      }

  pub new-IsNew :
      (key : Bytes) (ps : List PublicKey) (c : Cipher S) (p : PublicKey)
      → new S key ps ≡ ok c
      → contains ps p ≡ true
      → IsNew key p c
  unfolding new
  new-IsNew key ps c p e there =
      (add_peers-Opens key ps (record { send_noise_map = []; recv_noise_map = [] }) c e).added p
        there
