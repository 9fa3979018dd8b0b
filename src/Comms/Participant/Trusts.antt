-- ===== src/Comms/Participant/Trusts.antt =====
-- From whom a participant takes the signing package.
use frost_tools.Prelude.{
  ℕ, ◌≡◌, refl, arith, true, Option, some, List, [], ◌∷◌, get, is_some, contains, eq_iff, ok, ◌>>=◌,
  ◌>>◌, pure, lift, gets, modify, ok_or, ok_or-ok,
}
use frost_tools.Prelude.Contracts.{
  Ensures, ensures_then, ensures_pure, ensures_lift, ensures_modify, ensures_true, ensures_fact,
}
use frost_tools.Api.{Uuid, Bytes, PublicKey, public_key_eq, Msg, GetSessionInfoOutput}
use frost_tools.Client.Transport.{Transport}
use frost_tools.Client.Calls.{get_session_info}
use frost_tools.Cipher.Snow.{Snow}
use frost_tools.Cipher.Peers
use frost_tools.Cipher.Peers.{Cipher, encrypt, decrypt, at_peer, unknown_sender}
use frost_tools.Cipher.Use.{new_peers}
use frost_tools.Session.Suite.{Suite}
use frost_tools.Comms.Core.{message, from_cipher, from_cipher-ok, calling, log_in, find_session}
use frost_tools.Comms.Payloads.{Payloads, SendSigningPackageArgs}
use frost_tools.Comms.Participant.{Args, HttpComms, get_message_count, get_signing_package}
use frost_tools.Comms.Participant.Listens.{
  Listens, Answered, calling-Answered, FromCoordinator, packaged,
}

module _ (T : Transport) (S : Snow) (C : Suite) (P : Payloads C) where
  open C use {SigningCommitments}
  open P use {SigningPackage, Randomizer}

  -- The only channel is that of the key that the address book has for the coordinator whom the server
  -- names for the session.
  unfoldable pub Trusts : Args T S C P → PublicKey → HttpComms T S C P → Type 0
  Trusts args coordinator c =
      (getter : PublicKey → Option PublicKey) × (id : Uuid) × (info : GetSessionInfoOutput)
      × Answered T S C P (get_session_info T id) info
      × (args.comm_coordinator_pubkey_getter ≡ some getter)
      × (getter info.coordinator_pubkey ≡ some coordinator)
      × Listens T S C P coordinator c

  only_peer :
      (privkey : Bytes) (coordinator : PublicKey) (cipher : Cipher S)
      → Peers.new S privkey (coordinator ∷ []) ≡ ok cipher
      → (p : PublicKey) → is_some (get cipher.recv_noise_map p) ≡ true
      → p ≡ coordinator
  unfolding contains
  only_peer privkey coordinator cipher e p there =
      let (valid, peers) = new_peers S privkey (coordinator ∷ []) cipher e in
      let known = (peers p).1 in ground (arith, eq_iff coordinator p)

  joining :
      (args : Args T S C P) (getter : PublicKey → Option PublicKey) (privkey : Bytes) (id : Uuid)
      (info : GetSessionInfoOutput)
      → Answered T S C P (get_session_info T id) info
      → Ensures
          (λ (c : HttpComms T S C P). args.comm_coordinator_pubkey_getter ≡ some getter)
          (lift (
              ok_or
                (getter info.coordinator_pubkey)
                (message "The coordinator is not registered in the user's address book"))
            >>= λ coordinator.
                lift (from_cipher T S (Peers.new S privkey (coordinator ∷ []))) >>= λ cipher.
                modify (λ c. record c { cipher = some cipher }) >> pure info.message_count)
          (λ n c. (coordinator : PublicKey) × Trusts args coordinator c)
  unfolding Trusts Listens
  joining args getter privkey id info named =
      let unknown = message "The coordinator is not registered in the user's address book" in
      ensures_then
        (ensures_lift
          {Q = λ coordinator c.
            (args.comm_coordinator_pubkey_getter ≡ some getter)
            × (getter info.coordinator_pubkey ≡ some coordinator)}
          (ok_or (getter info.coordinator_pubkey) unknown)
          (λ c h coordinator e. (h, ok_or-ok (getter info.coordinator_pubkey) unknown e)))
        (λ coordinator.
          ensures_then
            (ensures_lift
              {Q = λ cipher c.
                ((args.comm_coordinator_pubkey_getter ≡ some getter)
                  × (getter info.coordinator_pubkey ≡ some coordinator))
                × (Peers.new S privkey (coordinator ∷ []) ≡ ok cipher)}
              (from_cipher T S (Peers.new S privkey (coordinator ∷ [])))
              (λ c h cipher e. (h, from_cipher-ok T S (Peers.new S privkey (coordinator ∷ [])) e)))
            (λ cipher.
              ensures_then
                (ensures_modify {Q = λ u c. (coordinator : PublicKey) × Trusts args coordinator c}
                  (λ c. record c { cipher = some cipher })
                  (λ c h. (
                    coordinator,
                    (
                      getter,
                      id,
                      info,
                      named,
                      h.0.0,
                      h.0.1,
                      (cipher, refl, only_peer privkey coordinator cipher h.1),
                    ),
                  )))
                (λ u. ensures_pure info.message_count (λ c h. h))))

  trusting :
      (args : Args T S C P)
      → Ensures
          (λ c. Unit {0})
          (get_message_count T S C P args)
          (λ n c. (coordinator : PublicKey) × Trusts args coordinator c)
  unfolding get_message_count Trusts Listens
  trusting args =
      let missing = message "comm_privkey and comm_coordinator_pubkey_getter must be specified" in
      ensures_then (ensures_true (log_in T S P.xed_sign args.comm_privkey args.comm_pubkey))
        (λ token. ensures_then (ensures_true (gets (λ c. c.session_id))) (λ given.
          ensures_then (ensures_true (find_session T S given)) (λ id.
            ensures_then (ensures_true (modify (λ c. record c { session_id = some id }))) (λ u.
              ensures_then (ensures_true (lift (ok_or args.comm_privkey missing))) (λ privkey.
                ensures_then
                  (ensures_lift {Q = λ getter c. args.comm_coordinator_pubkey_getter ≡ some getter}
                    (ok_or args.comm_coordinator_pubkey_getter missing)
                    (λ c h getter e. ok_or-ok args.comm_coordinator_pubkey_getter missing e))
                  (λ getter.
                    ensures_then
                      (calling-Answered T S C P (get_session_info T id)
                        (ensures_fact (calling T S (get_session_info T id))))
                      (λ info. record {
                        ensured = λ c h. (joining args getter privkey id info h.1).ensured c h.0;
                      })))))))

  -- The signing package that a participant returns was in a message of one sender, which the server
  -- returned and snow opened. The key of that sender is the one that the address book gave for the
  -- coordinator whom the server named, and the participant reads from no other channel.
  pub get_signing_package_lem :
      (args : Args T S C P) (rounds n : ℕ) (commitments : List SigningCommitments)
      (c d e : HttpComms T S C P) (config : SendSigningPackageArgs SigningPackage Randomizer)
      → get_message_count T S C P args c ≡ (ok n, d)
      → get_signing_package T S C P rounds commitments d ≡ (ok config, e)
      → (coordinator : PublicKey) × (clear : Msg) × Trusts args coordinator d
        × FromCoordinator T S C P coordinator clear
        × (P.read_signing_package clear.msg ≡ some config)
  unfolding Trusts
  get_signing_package_lem args rounds n commitments c d e config joined got =
      let (coordinator, trusted) = (trusting args).ensured c tt n d joined in
      let (clear, from, read) =
        (packaged T S C P coordinator rounds commitments).ensured d trusted.6 config e got in
      (coordinator, clear, trusted, from, read)
