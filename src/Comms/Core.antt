-- ===== src/Comms/Core.antt =====
-- What the three HTTP implementations share: their fields, the login, and the loop that waits for messages.
use frost_tools.Prelude.{
  ◌≡◌, ap, ℕ, zero, suc, String, Bool, true, false, Option, none, some, List, [], ◌∷◌, Map, Outcome,
  ok, err, panic, Method, ◌>>=◌, ◌>>◌, pure, lift, gets, ok_or, bind,
}
use frost_tools.Api.{Uuid, Bytes, PublicKey, Msg, ReceiveArgs}
use frost_tools.Client.Transport.{Transport}
use frost_tools.Client.Calls.{Link, ClientError, Call, challenge, login, receive, list_sessions}
use frost_tools.Cipher.Snow.{Snow}
use frost_tools.Cipher.Peers.{Cipher, CipherError, sign, encrypt, decrypt}
use frost_tools.Session.Suite.{SessionError}

-- The session to join: the one that was given, or the only one that the server lists.
pub data Sessions : Type 0 where
  only : Uuid → Sessions
  several no_session : Sessions

unfoldable pub only_session : List Uuid → Sessions
only_session [] = no_session
only_session (id ∷ []) = only id
only_session (id ∷ ids) = several

module _ (T : Transport) (S : Snow) where
  -- The errors that `?` boxes. `still_waiting` is no error of the program: the loop that waits for
  -- messages has not ended in the rounds that the model gives it.
  pub data CommsError : Type 0 where
    client_error : ClientError T → CommsError
    cipher_error : CipherError S → CommsError
    session_error : SessionError → CommsError
    message : String → CommsError
    json_error frost_error still_waiting : CommsError

  abbrev pub from_client : {A : Type 0} → Outcome (ClientError T) A → Outcome CommsError A
  from_client (ok a) = ok a
  from_client (err e) = err (client_error e)
  from_client panic = panic

  abbrev pub from_cipher : {A : Type 0} → Outcome (CipherError S) A → Outcome CommsError A
  from_cipher (ok a) = ok a
  from_cipher (err e) = err (cipher_error e)
  from_cipher panic = panic

  abbrev pub from_session : {A : Type 0} → Outcome SessionError A → Outcome CommsError A
  from_session (ok a) = ok a
  from_session (err e) = err (session_error e)
  from_session panic = panic

  pub from_cipher-ok :
      {A : Type 0} {a : A} (r : Outcome (CipherError S) A) → from_cipher r ≡ ok a → r ≡ ok a
  from_cipher-ok (ok b) e = let same : b ≡ _ = cc in ap ok same
  from_cipher-ok (err x) e = cc
  from_cipher-ok panic e = cc

  -- `unwrap` and `expect`.
  abbrev pub unwrap : {A : Type 0} → Option A → Outcome CommsError A
  unwrap none = panic
  unwrap (some a) = ok a

  abbrev pub chosen : Sessions → Outcome CommsError Uuid
  chosen (only id) = ok id
  chosen several = err (message "user has more than one FROST session active")
  chosen no_session = err (message "User has no current sessions active")

  -- What the loop that waits for messages changes: the client, the cipher and the session state.
  pub record Polling (State : Type 0) : Type 0 where
    pub link : Link T
    pub cipher : Cipher S
    pub state : State

  -- The fields of an implementation; `State` is the type of its session state.
  pub record Comms (State Identifier : Type 0) : Type 0 where
    pub link : Link T
    pub session_id : Option Uuid
    pub state : State
    pub identifier : Option Identifier
    pub pubkeys : Map PublicKey Identifier
    pub cipher : Option (Cipher S)

  module _ {State : Type 0} (recv : Msg → State → Outcome SessionError (Unit {0}) × State)
      (done : State → Bool) (args : ReceiveArgs) where
    unfoldable pub receiving : Method CommsError (Polling State) (List Msg)
    receiving p = let (r, l) = receive T args p.link in (from_client r, record p { link = l })

    unfoldable pub take_msg : Msg → Method CommsError (Polling State) (Unit {0})
    take_msg msg p =
        let (r, c) = decrypt S msg p.cipher in
        let q = record p { cipher = c } in
        elim r [
          | ok m ↦ let (o, s) = recv m q.state in (from_session o, record q { state = s })
          | err e ↦ (err (cipher_error e), q)
          | panic ↦ (panic, q)
        ]

    unfoldable pub take_msgs : List Msg → Method CommsError (Polling State) (Unit {0})
    take_msgs [] = pure tt
    take_msgs (m ∷ ms) = do take_msg m; take_msgs ms

    -- One round of the loop: whether it was the last.
    unfoldable pub poll_once : Method CommsError (Polling State) Bool
    poll_once = do msgs ← receiving; take_msgs msgs; gets (λ p. done p.state)

    unfoldable pub poll : ℕ → Method CommsError (Polling State) (Unit {0})
    poll zero = lift (err still_waiting)
    poll (suc n) = poll_once >>= λ last. elim last [ true ↦ pure tt | false ↦ poll n ]

  module _ {State Identifier : Type 0} where
    unfoldable pub calling : {A : Type 0} → Call T A → Method CommsError (Comms State Identifier) A
    calling m c = let (r, l) = m c.link in (from_client r, record c { link = l })

    -- The loop with a cipher that is not in its field yet, and what becomes of that cipher.
    unfoldable pub polling_with :
        Cipher S
        → Method CommsError (Polling State) (Unit {0})
        → Method CommsError (Comms State Identifier) (Cipher S)
    polling_with cipher m c =
        let (r, p) = m (record { link = c.link; cipher = cipher; state = c.state }) in
        (bind r (λ _. ok p.cipher), record c { link = p.link; state = p.state })

    -- The loop with the cipher of the field.
    unfoldable pub polling :
        Method CommsError (Polling State) (Unit {0})
        → Method CommsError (Comms State Identifier) (Unit {0})
    polling m c = elim c.cipher [
      | none ↦ (panic, c)
      | some cipher ↦
          let (r, p) = m (record { link = c.link; cipher = cipher; state = c.state }) in
          (r, record c { link = p.link; state = p.state; cipher = some p.cipher })
    ]

    -- `self.cipher.as_mut().expect(…)`
    unfoldable pub expect_cipher : Method CommsError (Comms State Identifier) (Unit {0})
    expect_cipher c = elim c.cipher [ none ↦ (panic, c) | some _ ↦ (ok tt, c) ]

    unfoldable pub encrypting :
        Option PublicKey → Bytes → Method CommsError (Comms State Identifier) Bytes
    encrypting recipient msg c = elim c.cipher [
      | none ↦ (panic, c)
      | some cipher ↦
          let (r, cipher') = encrypt S recipient msg cipher in
          (from_cipher r, record c { cipher = some cipher' })
    ]

    unfoldable pub expect_session_id : Method CommsError (Comms State Identifier) Uuid
    expect_session_id c = (unwrap c.session_id, c)

    -- The login with which each implementation begins.
    unfoldable pub log_in :
        (Bytes → Uuid → Bytes)
        → Option Bytes
        → Option PublicKey
        → Method CommsError (Comms State Identifier) Uuid
    log_in xed_sign comm_privkey comm_pubkey = do
      c ← calling (challenge T)
      privkey ← lift (ok_or comm_privkey (message "comm_privkey must be specified"))
      signature ← lift (from_cipher (sign S xed_sign privkey c))
      pubkey ← lift (ok_or comm_pubkey (message "comm_pubkey must be specified"))
      calling (login T (record { challenge = c; pubkey = pubkey; signature = signature }))

    -- `match self.session_id`
    unfoldable pub find_session : Option Uuid → Method CommsError (Comms State Identifier) Uuid
    find_session (some id) = pure id
    find_session none = do ids ← calling (list_sessions T); lift (chosen (only_session ids))
